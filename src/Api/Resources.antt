-- ===== src/Api/Resources.antt =====
-- pkg/apis/pvpool.puppet.com/v1alpha1: the custom resources, and the wrappers of
-- pkg/apis/pvpool.puppet.com/v1alpha1/obj around them.
use pvpool.Prelude.{ℕ, String, List, [], Option, none, Bool, true, false, ℤ, pos}
use pvpool.Api.Core.{Key, Time, ObjectMeta, empty_meta, LabelSelector, PvcSpec, JobSpec, AccessMode}
use pvpool.Api.Core.{ConditionStatus}

-- `changed` is LastTransitionTime.
pub record Condition : Type 0 where
  pub status : ConditionStatus
  pub changed : Time
  pub reason : String
  pub message : String

-- The zero value, which a map gives for a missing key.
abbrev pub empty_condition : Condition
empty_condition = record { status = ConditionStatus.unset; changed = 0; reason = ""; message = "" }

pub record PvcTemplate : Type 0 where
  pub metadata : ObjectMeta
  pub spec : PvcSpec

pub record JobTemplate : Type 0 where
  pub metadata : ObjectMeta
  pub spec : JobSpec

pub record MountJob : Type 0 where
  pub template : JobTemplate
  pub volume_name : String

pub record PoolSpec : Type 0 where
  pub replicas : Option ℤ
  pub selector : LabelSelector
  pub template : PvcTemplate
  pub init_job : Option MountJob

pub data PoolConditionType : Type 0 where
  available settlement : PoolConditionType

-- `t == typ`
abbrev pub is_pool_type : PoolConditionType → PoolConditionType → Bool
is_pool_type available available = true
is_pool_type settlement settlement = true
is_pool_type _ _ = false

pub record PoolCondition : Type 0 where
  pub condition : Condition
  pub kind : PoolConditionType

pub record PoolStatus : Type 0 where
  pub observed_generation : ℕ
  pub replicas : ℤ
  pub available_replicas : ℤ
  pub conditions : List PoolCondition

-- obj.Pool: the key and the object.
pub record Pool : Type 0 where
  pub key : Key
  pub metadata : ObjectMeta
  pub spec : PoolSpec
  pub status : PoolStatus

pub record PoolReference : Type 0 where
  pub namespace : String
  pub name : String

pub record CheckoutSpec : Type 0 where
  pub pool_ref : PoolReference
  pub claim_name : String
  pub access_modes : List AccessMode

pub data CheckoutConditionType : Type 0 where
  acquired : CheckoutConditionType

abbrev pub is_checkout_type : CheckoutConditionType → CheckoutConditionType → Bool
is_checkout_type acquired acquired = true

pub record CheckoutCondition : Type 0 where
  pub condition : Condition
  pub kind : CheckoutConditionType

-- `volume_claim_ref` is the name in the reference; the empty string is the empty reference.
pub record CheckoutStatus : Type 0 where
  pub volume_name : String
  pub volume_claim_ref : String
  pub conditions : List CheckoutCondition

-- obj.Checkout: the key and the object.
pub record Checkout : Type 0 where
  pub key : Key
  pub metadata : ObjectMeta
  pub spec : CheckoutSpec
  pub status : CheckoutStatus

abbrev empty_pvc_spec : PvcSpec
empty_pvc_spec = record {
  storage_class_name = none;
  selector = none;
  volume_name = "";
  access_modes = [];
  requests = [];
  rest = [];
}

-- The zero Pool under a key.
abbrev pub new_pool : Key → Pool
new_pool key = record {
  key = key;
  metadata = empty_meta;
  spec = record {
    replicas = none;
    selector = record { match_labels = []; match_expressions = [] };
    template = record { metadata = empty_meta; spec = empty_pvc_spec };
    init_job = none;
  };
  status = record {
    observed_generation = 0;
    replicas = pos 0;
    available_replicas = pos 0;
    conditions = [];
  };
}

-- The zero Checkout under a key.
abbrev pub new_checkout : Key → Checkout
new_checkout key = record {
  key = key;
  metadata = empty_meta;
  spec = record {
    pool_ref = record { namespace = ""; name = "" };
    claim_name = "";
    access_modes = [];
  };
  status = record { volume_name = ""; volume_claim_ref = ""; conditions = [] };
}
