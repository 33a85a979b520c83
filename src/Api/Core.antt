-- ===== src/Api/Core.antt =====
-- The third-party objects that the program handles: corev1, batchv1 and metav1 structs, cut down
-- to the fields that the source names. `rest` stands for a struct's other fields, which are only
-- ever copied whole. A Go pointer field is an Option; a struct wrapper of the k8sutil library is
-- its key together with its object.
use pvpool.Prelude.{ℕ, String, List, [], Option, none, Bool, ℤ}

-- Seconds; `0` is the zero time.
abbrev pub Time : Type 0
Time = ℕ

-- A map of strings; also a struct's other fields, by name.
abbrev pub Dict : Type 0
Dict = List (String × String)

-- client.ObjectKey.
pub record Key : Type 0 where
  pub namespace : String
  pub name : String

pub record OwnerReference : Type 0 where
  pub uid : String
  pub controller : Bool

pub record ObjectMeta : Type 0 where
  pub namespace : String
  pub labels : Dict
  pub annotations : Dict
  pub uid : String
  pub generation : ℕ
  pub created : Time
  pub deleted : Option Time
  pub owners : List OwnerReference
  pub rest : Dict

abbrev pub empty_meta : ObjectMeta
empty_meta = record {
  namespace = "";
  labels = [];
  annotations = [];
  uid = "";
  generation = 0;
  created = 0;
  deleted = none;
  owners = [];
  rest = [];
}

pub data ClaimPhase : Type 0 where
  unset pending bound lost : ClaimPhase

-- corev1.ConditionStatus; `unset` is the empty string.
pub data ConditionStatus : Type 0 where
  unset is_true is_false unknown : ConditionStatus

pub data RestartPolicy : Type 0 where
  unset always on_failure never : RestartPolicy

abbrev pub AccessMode : Type 0
AccessMode = String

pub record LabelSelector : Type 0 where
  pub match_labels : Dict
  pub match_expressions : List (String × String × List String)

pub record PvcSpec : Type 0 where
  pub storage_class_name : Option String
  pub selector : Option LabelSelector
  pub volume_name : String
  pub access_modes : List AccessMode
  pub requests : Dict
  pub rest : Dict

pub record Pvc : Type 0 where
  pub key : Key
  pub metadata : ObjectMeta
  pub spec : PvcSpec
  pub phase : ClaimPhase

pub record ObjectReference : Type 0 where
  pub api_version : String
  pub kind : String
  pub namespace : String
  pub name : String
  pub uid : String

pub record CsiSource : Type 0 where
  pub read_only : Bool
  pub rest : Dict

pub record PvSpec : Type 0 where
  pub storage_class_name : String
  pub access_modes : List AccessMode
  pub claim_ref : Option ObjectReference
  pub reclaim_policy : String
  pub csi : Option CsiSource
  pub capacity : Dict
  pub rest : Dict

pub record Pv : Type 0 where
  pub name : String
  pub metadata : ObjectMeta
  pub spec : PvSpec

-- A pod's volume; `claim_name` is that of its persistent volume claim source.
pub record Volume : Type 0 where
  pub name : String
  pub claim_name : Option String
  pub rest : Dict

pub record PodSpec : Type 0 where
  pub restart_policy : RestartPolicy
  pub volumes : List Volume
  pub containers : List (String × String)
  pub rest : Dict

-- `pod` is Template.Spec.
pub record JobSpec : Type 0 where
  pub active_deadline_seconds : Option ℤ
  pub backoff_limit : Option ℤ
  pub pod : PodSpec
  pub rest : Dict

pub record JobCondition : Type 0 where
  pub status : ConditionStatus
  pub reason : String
  pub message : String

pub record Job : Type 0 where
  pub key : Key
  pub metadata : ObjectMeta
  pub spec : JobSpec
  pub conditions : List (String × JobCondition)
