-- ===== src/Api/State.antt =====
-- The structs PoolReplica, PoolState and CheckoutState of pkg/controller/app. A replica's pointer
-- to its pool is the pool of the state that holds it, so the methods of a replica take that pool
-- as an argument.
use pvpool.Prelude.{List, [], Option, none, some, if◌then◌else◌}
use pvpool.Api.Core.{Pvc, Pv, Job}
use pvpool.Api.Resources.{
  Condition, Pool, Checkout, PoolConditionType, CheckoutConditionType, is_pool_type,
  is_checkout_type,
}

pub record PoolReplica : Type 0 where
  pub claim : Pvc
  pub volume : Option Pv
  pub init_job : Job

-- The map Conds; a function, with `none` for a missing key.
abbrev pub PoolConds : Type 0
PoolConds = PoolConditionType → Option Condition

abbrev pub set_pool_cond : PoolConditionType → Condition → PoolConds → PoolConds
set_pool_cond typ c conds t = if is_pool_type t typ then some c else conds t

abbrev pub CheckoutConds : Type 0
CheckoutConds = CheckoutConditionType → Option Condition

abbrev pub set_checkout_cond : CheckoutConditionType → Condition → CheckoutConds → CheckoutConds
set_checkout_cond typ c conds t = if is_checkout_type t typ then some c else conds t

pub record PoolState : Type 0 where
  pub pool : Pool
  pub initializing : List PoolReplica
  pub available : List PoolReplica
  pub stale : List PoolReplica
  pub conds : PoolConds

-- `claim` and `volume` are PersistentVolumeClaim and PersistentVolume, the ones that the requestor
-- gets; `locked_claim` and `locked_volume` take the volume from the pool.
pub record CheckoutState : Type 0 where
  pub checkout : Checkout
  pub claim : Pvc
  pub volume : Option Pv
  pub locked_claim : Pvc
  pub locked_volume : Option Pv
  pub conds : CheckoutConds

abbrev pub new_pool_state : Pool → PoolState
new_pool_state p = record {
  pool = p;
  initializing = [];
  available = [];
  stale = [];
  conds = λ _. none;
}
