-- ===== src/Reconcile/Pools.antt =====
-- pkg/controller/reconciler/pool.go.
use pvpool.Prelude.{String, Bool, true, false, none, some, if◌then◌else◌}
use pvpool.Exec.{Outcome, ok, err, panic, timeout, Exec, pure, ◌>>◌}
use pvpool.Api.Core.{Key}
use pvpool.Api.Resources.{Pool, new_pool}
use pvpool.Api.State.{PoolState, new_pool_state}
use pvpool.Kube.{Kube}
use pvpool.PoolState.Slots
use pvpool.PoolState.Load
use pvpool.PoolState.Persist
use pvpool.PoolState.Configure.{configure_pool_state, configure_pool}
use pvpool.Reconcile.Reply.{Reply, answer, reply_of, after_status}

abbrev pub finalizer_name : String
finalizer_name = "pvpool.puppet.com/pool-reconciler"

module _ (k : Kube) where
  abbrev Run : Type 0
  Run = Outcome k.Error (Reply k.Error) × (k.World × PoolState)

  abbrev persisted : k.World × PoolState → Run
  persisted s = let (res, s') = Persist.persist k s in (reply_of false res, s')

  -- The function that Finalize is given.
  abbrev pub cleanup : Exec k.Error (k.World × PoolState) (Unit {0})
  cleanup = Slots.delete k >> pure tt

  abbrev pub finalized : Outcome k.Error Bool × (k.World × PoolState) → Run
  finalized (ok true, s) = (answer false none, s)
  finalized (ok false, s) = persisted (s.0, configure_pool_state k s.1)
  finalized (err e, s) = (answer false (some e), s)
  finalized (panic, s) = (panic, s)
  finalized (timeout, s) = (timeout, s)

  unfoldable pub finish : k.World × PoolState → Run
  finish s = finalized (k.finalize finalizer_name cleanup s)

  -- The body of Reconcile, from the outcome of the state's Load on.
  abbrev pub loaded : Outcome k.Error Bool × (k.World × PoolState) → Run
  loaded (ok true, s) = finish s
  loaded (ok false, s) = (answer true none, s)
  loaded (err e, s) = (answer true (some e), s)
  loaded (panic, s) = (panic, s)
  loaded (timeout, s) = (timeout, s)

  unfoldable pub body : k.World × PoolState → Run
  body s = loaded (Load.load k s)

  -- The deferred update of the status, which a pool on its way out does without.
  abbrev pub save_status :
      Outcome k.Error (Reply k.Error)
      → k.World × PoolState
      → Outcome k.Error (Reply k.Error) × k.World
  save_status res s =
      let pool = configure_pool (k.now s.0) s.1 in
      if k.finalizing pool
      then (res, s.0)
      else let (saved, t) = k.update_pool_status (s.0, pool) in (after_status res saved, t.0)

  unfoldable pub reconcile_state : k.World × PoolState → Outcome k.Error (Reply k.Error) × k.World
  reconcile_state s = let (res, t) = body s in save_status res t

  -- Reconcile from what the pool's Load gives.
  abbrev pub found :
      Outcome k.Error Bool × (k.World × Pool) → Outcome k.Error (Reply k.Error) × k.World
  found (ok true, s) = reconcile_state (s.0, new_pool_state s.1)
  found (ok false, s) = (answer false none, s.0)
  found (err e, s) = (answer false (some e), s.0)
  found (panic, s) = (panic, s.0)
  found (timeout, s) = (timeout, s.0)

  unfoldable pub reconcile : Key → k.World → Outcome k.Error (Reply k.Error) × k.World
  reconcile key w = found (k.load_pool (w, new_pool key))
