-- ===== src/Copies/Values.antt =====
-- What a struct of pkg/apis/pvpool.puppet.com/v1alpha1 in memory is the value of.
use pvpool.Prelude.{◌≡◌, Option, List, ℤ}
use pvpool.Api.Core.{ObjectMeta, LabelSelector, PvcSpec, JobSpec, Time, Dict}
use pvpool.Api.Resources.{
  Condition, PoolCondition, CheckoutCondition, PvcTemplate, JobTemplate, MountJob, PoolSpec,
  PoolStatus, CheckoutSpec, CheckoutStatus,
}
use pvpool.Copies.Memory.{
  Place, Parts, MemCondition, MemPoolCondition, MemCheckoutCondition, MemClaimTemplate,
  MemJobTemplate, MemMountJob, MemPoolSpec, MemPoolStatus, MemPool, MemCheckoutSpec,
  MemCheckoutStatus, MemCheckout, MemPoolList, MemCheckoutList,
}
use pvpool.Copies.DeepCopy.{
  int32s, modes_kind, pool_conditions_kind, checkout_conditions_kind, mount_job_kind, pools_kind,
  checkouts_kind,
}
use pvpool.Copies.Rules.{Viewing, Exactly, Both, Each}
use pvpool.Copies.Shapes.{AtPlace, AtSlice}

module _ (p : Parts) where
  -- The values of the third-party structs.
  pub record Views : Type 1 where
    pub meta : Viewing p p.Meta ObjectMeta
    pub list_meta : Viewing p p.ListMeta Dict
    pub time : Viewing p p.Time Time
    pub selector : Viewing p p.Selector LabelSelector
    pub claim_spec : Viewing p p.ClaimSpec PvcSpec
    pub job_spec : Viewing p p.JobSpec JobSpec

  module _ (vs : Views) where
    abbrev pub ConditionAt : Viewing p (MemCondition p) Condition
    ConditionAt h c v =
        vs.time h c.changed v.changed
        × ((c.status ≡ v.status) × (c.reason ≡ v.reason) × (c.message ≡ v.message))

    abbrev pub PoolConditionAt : Viewing p (MemPoolCondition p) PoolCondition
    PoolConditionAt h c v = ConditionAt h c.condition v.condition × (c.kind ≡ v.kind)

    abbrev pub CheckoutConditionAt : Viewing p (MemCheckoutCondition p) CheckoutCondition
    CheckoutConditionAt h c v = ConditionAt h c.condition v.condition × (c.kind ≡ v.kind)

    abbrev pub ClaimTemplateAt : Viewing p (MemClaimTemplate p) PvcTemplate
    ClaimTemplateAt h t v =
        Both p vs.meta vs.claim_spec h (t.metadata, t.spec) (v.metadata, v.spec) × Unit {0}

    abbrev pub JobTemplateAt : Viewing p (MemJobTemplate p) JobTemplate
    JobTemplateAt h t v =
        Both p vs.meta vs.job_spec h (t.metadata, t.spec) (v.metadata, v.spec) × Unit {0}

    abbrev pub MountJobAt : Viewing p (MemMountJob p) MountJob
    MountJobAt h j v = JobTemplateAt h j.template v.template × (j.volume_name ≡ v.volume_name)

    abbrev pub ReplicasAt : Viewing p Place (Option ℤ)
    ReplicasAt = AtPlace p (int32s p) (Exactly p)

    abbrev pub InitJobAt : Viewing p Place (Option MountJob)
    InitJobAt = AtPlace p (mount_job_kind p) MountJobAt

    -- A spec in memory and a pool's spec.
    abbrev pub PoolSpecAt : Viewing p (MemPoolSpec p) PoolSpec
    PoolSpecAt h s v =
        Both p ReplicasAt (Both p vs.selector (Both p ClaimTemplateAt InitJobAt)) h
          (s.replicas, (s.selector, (s.template, s.init_job)))
          (v.replicas, (v.selector, (v.template, v.init_job)))
        × Unit {0}

    abbrev pub PoolStatusAt : Viewing p (MemPoolStatus p) PoolStatus
    PoolStatusAt h s v =
        AtSlice p (pool_conditions_kind p) (Each p PoolConditionAt) h s.conditions v.conditions
        × ((s.observed_generation ≡ v.observed_generation)
            × (s.replicas ≡ v.replicas)
            × (s.available_replicas ≡ v.available_replicas))

    -- What there is of a pool besides its key.
    abbrev pub PoolObject : Type 0
    PoolObject = ObjectMeta × (PoolSpec × PoolStatus)

    abbrev pub CheckoutObject : Type 0
    CheckoutObject = ObjectMeta × (CheckoutSpec × CheckoutStatus)

    abbrev pub PoolAt : Viewing p (MemPool p) PoolObject
    PoolAt h x v =
        Both p vs.meta (Both p PoolSpecAt PoolStatusAt) h (x.metadata, (x.spec, x.status)) v
        × Unit {0}

    abbrev pub CheckoutSpecAt : Viewing p (MemCheckoutSpec p) CheckoutSpec
    CheckoutSpecAt h s v =
        AtSlice p (modes_kind p) (Exactly p) h s.access_modes v.access_modes
        × ((s.pool_ref ≡ v.pool_ref) × (s.claim_name ≡ v.claim_name))

    abbrev pub CheckoutStatusAt : Viewing p (MemCheckoutStatus p) CheckoutStatus
    CheckoutStatusAt h s v =
        AtSlice p (checkout_conditions_kind p) (Each p CheckoutConditionAt) h s.conditions
          v.conditions
        × ((s.volume_name ≡ v.volume_name) × (s.volume_claim_ref ≡ v.volume_claim_ref))

    abbrev pub CheckoutAt : Viewing p (MemCheckout p) CheckoutObject
    CheckoutAt h x v =
        Both p vs.meta (Both p CheckoutSpecAt CheckoutStatusAt) h (x.metadata, (x.spec, x.status)) v
        × Unit {0}

    abbrev pub PoolListAt : Viewing p (MemPoolList p) (Dict × List PoolObject)
    PoolListAt h x v =
        Both p vs.list_meta (AtSlice p (pools_kind p) (Each p PoolAt)) h (x.metadata, x.items) v
        × Unit {0}

    abbrev pub CheckoutListAt : Viewing p (MemCheckoutList p) (Dict × List CheckoutObject)
    CheckoutListAt h x v =
        Both p vs.list_meta (AtSlice p (checkouts_kind p) (Each p CheckoutAt)) h
          (x.metadata, x.items) v
        × Unit {0}
