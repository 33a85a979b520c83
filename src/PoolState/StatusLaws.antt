-- ===== src/PoolState/StatusLaws.antt =====
-- ConfigurePool (pkg/controller/app/pool.go), run again on its own result.
use pvpool.Prelude.{◌≡◌, refl}
use pvpool.Api.Core.{Time}
use pvpool.Api.Resources.{available, settlement}
use pvpool.Api.State.{PoolState}
use pvpool.Condition.{cond_or_empty}
use pvpool.Condition.Laws.{update_condition_idem}
use pvpool.PoolState.Configure.{configure_pool, pool_condition}

-- ConfigurePool settles at once: on the pool that it made of a state, with the rest of the state the
-- same, it changes nothing at any later time, so that a status does not change by itself.
pub configure_pool_idem :
    (now later : Time) (ps : PoolState)
    → configure_pool later (record ps { pool = configure_pool now ps }) ≡ configure_pool now ps
unfolding configure_pool pool_condition
configure_pool_idem now later ps =
    let first =
      update_condition_idem now later (pool_condition available ps.pool.status.conditions).condition
        (cond_or_empty (ps.conds available)) in
    let second =
      update_condition_idem now later
        (pool_condition settlement ps.pool.status.conditions).condition
        (cond_or_empty (ps.conds settlement)) in
    rw (first, second) refl
