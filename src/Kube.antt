-- ===== src/Kube.antt =====
-- What the controllers call and do not implement: the API server behind the k8sutil library's
-- wrappers, its helpers on metadata, random numbers, the clock, events and text formatting.
-- A call that can reach the server takes the world and gives it back changed.
pub mod Laws
pub mod Frame
pub mod Store
pub mod Lock
pub mod Disturbed
use pvpool.Prelude.{ℕ, String, List, Option, Bool, ℤ}
use pvpool.Exec.{Outcome, Exec}
use pvpool.Api.Core.{
  Key, Time, Dict, OwnerReference, ObjectMeta, LabelSelector, Pvc, Pv, Job, JobCondition,
}
use pvpool.Api.Resources.{Pool, Checkout}
use pvpool.Api.State.{PoolReplica, PoolState}

pub record Event : Type 0 where
  pub regarding : Key
  pub kind : String
  pub reason : String
  pub message : String

-- An argument of fmt.Sprintf.
pub data Arg (E : Type 0) : Type 0 where
  text : String → Arg E
  object_key : Key → Arg E
  number : ℤ → Arg E
  error : E → Arg E

pub data Propagation : Type 0 where
  default foreground background : Propagation

pub record Kube : Type 1 where
  pub World : Type 0
  pub Error : Type 0
  pub Rng : Type 0
  pub Selector : Type 0
  -- errors: errors.IsInvalid, errmark.MarkUser, errmark.MarkTransient, fmt
  pub is_invalid : Error → Bool
  pub mark_user : Error → Error
  pub mark_transient : Error → Error
  pub sprintf : String → List (Arg Error) → String
  pub errorf : String → List (Arg Error) → Error
  -- the wrappers' constructors
  pub new_pvc : Key → Pvc
  pub new_pv : String → Pv
  pub new_job : Key → Job
  -- Load, Persist and Delete of the wrappers
  pub load_pvc : Exec Error (World × Pvc) Bool
  pub persist_pvc : Exec Error (World × Pvc) (Unit {0})
  pub delete_pvc : Propagation → Exec Error (World × Pvc) Bool
  pub load_pv : Exec Error (World × Pv) Bool
  pub persist_pv : Exec Error (World × Pv) (Unit {0})
  pub delete_pv : Propagation → Exec Error (World × Pv) Bool
  pub load_job : Exec Error (World × Job) Bool
  pub delete_job : Propagation → Exec Error (World × Job) Bool
  -- lifecycle.OwnershipPersister{Owner: claim, Dependent: job}.Persist
  pub persist_owned : Exec Error (World × (Pvc × Job)) (Unit {0})
  -- Pool and Checkout: Load, lifecycle.RequiredLoader, Own, Status().Update, Finalizing
  pub load_pool : Exec Error (World × Pool) Bool
  pub require_pool : Exec Error (World × Pool) Bool
  pub pool_owns : Pool → Exec Error (World × Pvc) (Unit {0})
  pub update_pool_status : Exec Error (World × Pool) (Unit {0})
  pub finalizing : Pool → Bool
  pub load_checkout : Exec Error (World × Checkout) Bool
  pub checkout_owns : Checkout → Exec Error (World × Pvc) (Unit {0})
  pub update_checkout_status : Exec Error (World × Checkout) (Unit {0})
  -- lifecycle.Finalize under a finalizer's name; it may call the function that it is given
  pub finalize :
      String → Exec Error (World × PoolState) (Unit {0}) → Exec Error (World × PoolState) Bool
  -- client.List of claims, by their keys; metav1.LabelSelectorAsSelector
  pub list_pvcs : String → Selector → Exec Error World (List Key)
  pub as_selector : LabelSelector → Outcome Error Selector
  -- helpers on metadata
  pub controller_of : ObjectMeta → Option OwnerReference
  pub exists_object : ObjectMeta → Bool
  pub annotate : ObjectMeta → String → String → ObjectMeta
  pub copy_labels_and_annotations : ObjectMeta → ObjectMeta → ObjectMeta
  pub label_annotate_pvc : ObjectMeta → Pvc → Pvc
  pub label_annotate_job : ObjectMeta → Job → Job
  pub set_dependency_of : Pool → Exec Error (World × Job) (Unit {0})
  pub meta_name_suffixed : String → String → String
  -- jobs' conditions; the storage of a resource list; the kind of claims
  pub failed : Job → Bool
  pub succeeded : Job → Bool
  pub failed_condition : Job → Option JobCondition
  pub storage_of : Dict → String
  pub pvc_api_version : String
  pub pvc_kind : String
  -- rand.DefaultFactory.New, rand.Uint64N, uuid.New in hexadecimal, time.Now, sort.Sort
  pub new_rng : Exec Error World Rng
  pub uint64_n : Rng → ℕ → Exec Error World ℕ
  pub new_id : Exec Error World String
  pub now : World → Time
  pub sort_replicas : (PoolReplica → PoolReplica → Bool) → List PoolReplica → List PoolReplica
  -- EventRecorder(ctx).Event
  pub record_event : Event → World → World
