-- ===== src/PoolState/Configure.antt =====
-- ConfigurePoolState of pkg/controller/app/pool_state.go, and ConfigurePool of pool.go.
use pvpool.Prelude.{
  zero, ◌+◌, Bool, true, false, Option, some, List, [], ◌∷◌, map, if◌then◌else◌, length, ℤ, pos,
  to_int32,
}
use pvpool.Api.Core.{Time, is_false}
use pvpool.Api.Resources.{
  Condition, empty_condition, PoolConditionType, available, settlement, is_pool_type, PoolCondition,
  Pool,
}
use pvpool.Api.State.{PoolState, set_pool_cond}
use pvpool.Kube.{Kube}
use pvpool.Condition.{update_condition, condition, cond_or_empty}
use pvpool.Replica.Configure.{configure}

abbrev pub no_replicas : Condition
no_replicas = condition is_false "NoReplicasRequested" "The pool has no replicas configured."

abbrev pub asks_for_none : Option ℤ → Bool
asks_for_none (some (pos zero)) = true
asks_for_none _ = false

unfoldable pub configure_pool_state : Kube → PoolState → PoolState
configure_pool_state k ps = record ps {
  initializing = map (configure k ps.pool) ps.initializing;
  conds =
      if asks_for_none ps.pool.spec.replicas
      then set_pool_cond available no_replicas ps.conds
      else ps.conds;
}

-- obj.Pool.Condition: the condition of a type, or an empty one.
unfoldable pub pool_condition : PoolConditionType → List PoolCondition → PoolCondition
pool_condition typ [] = record { condition = empty_condition; kind = typ }
pool_condition typ (c ∷ cs) = if is_pool_type c.kind typ then c else pool_condition typ cs

abbrev next_condition : Time → PoolState → PoolConditionType → PoolCondition
next_condition now ps typ = record {
  condition =
      update_condition now (pool_condition typ ps.pool.status.conditions).condition
        (cond_or_empty (ps.conds typ));
  kind = typ;
}

-- The pool with its new status.
unfoldable pub configure_pool : Time → PoolState → Pool
configure_pool now ps = record (ps.pool) {
  status = record {
    observed_generation = ps.pool.metadata.generation;
    replicas = to_int32 (length ps.available + length ps.initializing + length ps.stale);
    available_replicas = to_int32 (length ps.available);
    conditions = map (next_condition now ps) (available ∷ settlement ∷ []);
  };
}
