-- ===== src/Tests/Reconciles.antt =====
-- Whole reconciles, on the small API server.
use pvpool.Prelude.{refl}
use pvpool.Exec.{Returns}
use pvpool.Api.Resources.{new_pool}
use pvpool.Api.State.{PoolState, new_pool_state}
use pvpool.Replica
use pvpool.Replica.Phase.{is_available, is_stale}
use pvpool.Replica.Configure.{
  configure, configure_claim, provision, prepare_job, annotate_phase, named_class, modes_or_default,
}
use pvpool.PoolState.Load
use pvpool.PoolState.Configure.{configure_pool_state}
use pvpool.PoolState.Slots.{delete_popped}
use pvpool.PoolState.Scale.{persist_scale, scale_down}
use pvpool.PoolState.Persist.{
  persist, persist_initializing, initializing_from, persist_available, available_from,
  persist_stale, stale_loop, report_failure,
}
use pvpool.Reconcile.SettledPool.{IsPoolSettled, reconcile_state-IsPoolSettled}
use pvpool.Tests.Cluster.{Cluster}
use pvpool.Reconcile.Pools
use pvpool.Reconcile.Checkouts
use pvpool.Reconcile.PoolEnds.{reconcile_pool-Returns}
use pvpool.Reconcile.CheckoutEnds.{reconcile_checkout-Returns}
use pvpool.Tests.Cluster.{toy}
use pvpool.Tests.Laws.{
  toy-RandLaws, toy-DeleteLaws, toy-ReplicaLaws, toy-LoadLaws, toy-ReconcileLaws, toy-AnnotateLaws,
  toy-PersistLaws, toy-SortLaws,
}
use pvpool.Tests.Pools.{key_of, cluster}

reconcile_pool-Returns_example : Returns (Pools.reconcile toy (key_of "pool") cluster).0
reconcile_pool-Returns_example =
    reconcile_pool-Returns toy toy-RandLaws toy-DeleteLaws toy-ReplicaLaws toy-LoadLaws
      toy-ReconcileLaws (key_of "pool") cluster

reconcile_checkout-Returns_example : Returns (Checkouts.reconcile toy (key_of "checkout") cluster).0
reconcile_checkout-Returns_example =
    reconcile_checkout-Returns toy toy-AnnotateLaws toy-PersistLaws toy-LoadLaws toy-ReconcileLaws
      toy-SortLaws (key_of "checkout") cluster

abbrev found_pool : Cluster × PoolState
found_pool = (cluster, new_pool_state (new_pool (key_of "pool")))

-- The pool asks for one replica, and it finds one that is available and two that are not.
reconcile_state-IsPoolSettled_example :
    IsPoolSettled toy found_pool (Pools.reconcile_state toy found_pool).1
unfolding Pools.reconcile_state Pools.body Pools.finish Load.load Load.load_keys Load.load_key
    Load.place Replica.load Replica.new_replica is_available is_stale configure_pool_state configure
    configure_claim provision prepare_job annotate_phase named_class modes_or_default persist
    persist_initializing initializing_from Replica.persist persist_available available_from
    persist_scale scale_down delete_popped Replica.pop Replica.delete persist_stale stale_loop
    report_failure
reconcile_state-IsPoolSettled_example =
    reconcile_state-IsPoolSettled toy found_pool (Pools.reconcile_state toy found_pool).1 refl
