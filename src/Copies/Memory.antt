-- ===== src/Copies/Memory.antt =====
-- Go's memory, and the structs of pkg/apis/pvpool.puppet.com/v1alpha1 as they lie in it: a pointer
-- or a slice is the place of a cell, or none where it is nil. TypeMeta, a struct of two texts, is
-- left out.
use pvpool.Prelude.{ℕ, String, Option, List, ℤ}
use pvpool.Api.Core.{AccessMode, ConditionStatus}
use pvpool.Api.Resources.{PoolConditionType, CheckoutConditionType, PoolReference}

-- A pointer or a slice.
abbrev pub Place : Type 0
Place = Option ℕ

-- The third-party structs in memory, and the cells that they point to.
pub record Parts : Type 1 where
  pub Meta : Type 0
  pub ListMeta : Type 0
  pub Time : Type 0
  pub Selector : Type 0
  pub ClaimSpec : Type 0
  pub JobSpec : Type 0
  pub Foreign : Type 0

module _ (p : Parts) where
  pub record MemCondition : Type 0 where
    pub status : ConditionStatus
    pub changed : p.Time
    pub reason : String
    pub message : String

  pub record MemPoolCondition : Type 0 where
    pub condition : MemCondition
    pub kind : PoolConditionType

  pub record MemCheckoutCondition : Type 0 where
    pub condition : MemCondition
    pub kind : CheckoutConditionType

  pub record MemClaimTemplate : Type 0 where
    pub metadata : p.Meta
    pub spec : p.ClaimSpec

  pub record MemJobTemplate : Type 0 where
    pub metadata : p.Meta
    pub spec : p.JobSpec

  pub record MemMountJob : Type 0 where
    pub template : MemJobTemplate
    pub volume_name : String

  pub record MemPoolSpec : Type 0 where
    pub replicas : Place
    pub selector : p.Selector
    pub template : MemClaimTemplate
    pub init_job : Place

  pub record MemPoolStatus : Type 0 where
    pub observed_generation : ℕ
    pub replicas : ℤ
    pub available_replicas : ℤ
    pub conditions : Place

  pub record MemPool : Type 0 where
    pub metadata : p.Meta
    pub spec : MemPoolSpec
    pub status : MemPoolStatus

  pub record MemCheckoutSpec : Type 0 where
    pub pool_ref : PoolReference
    pub claim_name : String
    pub access_modes : Place

  pub record MemCheckoutStatus : Type 0 where
    pub volume_name : String
    pub volume_claim_ref : String
    pub conditions : Place

  pub record MemCheckout : Type 0 where
    pub metadata : p.Meta
    pub spec : MemCheckoutSpec
    pub status : MemCheckoutStatus

  pub record MemPoolList : Type 0 where
    pub metadata : p.ListMeta
    pub items : Place

  pub record MemCheckoutList : Type 0 where
    pub metadata : p.ListMeta
    pub items : Place

  -- PoolValidator and CheckoutValidator of pkg/webhook, which embed a pointer.
  pub record MemValidator : Type 0 where
    pub object : Place

  -- What a pointer points to, or the array of a slice.
  pub data Cell : Type 0 where
    int32 : ℤ → Cell
    access_modes : List AccessMode → Cell
    pool_conditions : List MemPoolCondition → Cell
    checkout_conditions : List MemCheckoutCondition → Cell
    mount_job : MemMountJob → Cell
    pool : MemPool → Cell
    checkout : MemCheckout → Cell
    pools : List MemPool → Cell
    checkouts : List MemCheckout → Cell
    condition : MemCondition → Cell
    pool_condition : MemPoolCondition → Cell
    checkout_condition : MemCheckoutCondition → Cell
    claim_template : MemClaimTemplate → Cell
    job_template : MemJobTemplate → Cell
    pool_reference : PoolReference → Cell
    pool_spec : MemPoolSpec → Cell
    pool_status : MemPoolStatus → Cell
    checkout_spec : MemCheckoutSpec → Cell
    checkout_status : MemCheckoutStatus → Cell
    pool_list : MemPoolList → Cell
    checkout_list : MemCheckoutList → Cell
    pool_validator : MemValidator → Cell
    checkout_validator : MemValidator → Cell
    foreign : p.Foreign → Cell

  abbrev pub Heap : Type 0
  Heap = List Cell

  abbrev pub Copy : Type 0 → Type 0
  Copy A = A → Heap → A × Heap

  -- The copies of the third-party structs.
  pub record Library : Type 0 where
    pub meta : Copy p.Meta
    pub list_meta : Copy p.ListMeta
    pub time : Copy p.Time
    pub selector : Copy p.Selector
    pub claim_spec : Copy p.ClaimSpec
    pub job_spec : Copy p.JobSpec
