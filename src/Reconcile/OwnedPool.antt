-- ===== src/Reconcile/OwnedPool.antt =====
-- Which claims a reconcile of a pool (pkg/controller/reconciler/pool.go) writes.
use pvpool.Prelude.{◌≡◌, refl, true, false, Bool, Bool-cases, inl, inr}
use pvpool.Exec.{Outcome, ok, err, panic, timeout, pure}
use pvpool.Exec.Rules.{with_outcome, Keeps-bind}
use pvpool.Api.Core.{Key}
use pvpool.Api.Resources.{Pool, new_pool}
use pvpool.Api.State.{PoolState, new_pool_state}
use pvpool.Kube.{Kube}
use pvpool.Kube.Frame.{Frame, PoolHeld, ReadLaws, ClaimLaws, PoolLaws}
use pvpool.PoolState.Slots
use pvpool.PoolState.Load
use pvpool.PoolState.Owned.{delete-PoolHeld}
use pvpool.PoolState.OwnedLoad.{load-PoolHeld}
use pvpool.PoolState.OwnedPersist.{configure_pool_state-OwnsAll, persist-PoolHeld}
use pvpool.PoolState.Configure.{configure_pool_state, configure_pool}
use pvpool.Reconcile.Reply.{Reply}
use pvpool.Reconcile.Pools.{
  finalizer_name, cleanup, finalized, finish, loaded, body, save_status, reconcile_state, found,
  reconcile,
}

module _ (k : Kube) (f : Frame k) (reads : ReadLaws k f) (claims : ClaimLaws k f)
    (pools : PoolLaws k f) where
  cleanup-PoolHeld : (s : k.World × PoolState) → PoolHeld k f s → PoolHeld k f (cleanup k s).1
  cleanup-PoolHeld s h =
      Keeps-bind (PoolHeld k f) (Slots.delete k) (λ _. pure tt) s
        (delete-PoolHeld k f reads claims s h) λ _ _ g. g

  finalized-PoolHeld :
      (d : Outcome k.Error Bool × (k.World × PoolState))
      → PoolHeld k f d.1
      → PoolHeld k f (finalized k d).1
  finalized-PoolHeld (ok true, s) h = h
  finalized-PoolHeld (ok false, s) h =
      persist-PoolHeld k f reads claims pools (s.0, configure_pool_state k s.1)
        (h.0, configure_pool_state-OwnsAll k f reads claims pools s.1 h.1)
  finalized-PoolHeld (err e, s) h = h
  finalized-PoolHeld (panic, s) h = h
  finalized-PoolHeld (timeout, s) h = h

  loaded-PoolHeld :
      (d : Outcome k.Error Bool × (k.World × PoolState))
      → PoolHeld k f d.1
      → PoolHeld k f (loaded k d).1
  unfolding finish
  loaded-PoolHeld (ok true, s) h =
      finalized-PoolHeld (k.finalize finalizer_name (cleanup k) s)
        (pools.finalize-Held finalizer_name (cleanup k) s cleanup-PoolHeld h)
  loaded-PoolHeld (ok false, s) h = h
  loaded-PoolHeld (err e, s) h = h
  loaded-PoolHeld (panic, s) h = h
  loaded-PoolHeld (timeout, s) h = h

  save_status-Safe :
      (res : Outcome k.Error (Reply k.Error)) (s : k.World × PoolState)
      → f.Safe s.0
      → f.Safe (save_status k res s).1
  save_status-Safe res s h =
      let pool = configure_pool (k.now s.0) s.1 in
      elim (Bool-cases (k.finalizing pool)) [
        | inl leaving ↦ rw leaving h
        | inr stays ↦ rw stays (reads.update_pool_status-Safe (s.0, pool) h)
      ]

  reconcile_state-Safe : (s : k.World × PoolState) → PoolHeld k f s → f.Safe (reconcile_state k s).1
  unfolding reconcile_state body
  reconcile_state-Safe s h =
      save_status-Safe (body k s).0 (body k s).1
        (loaded-PoolHeld (Load.load k s) (load-PoolHeld k f reads claims pools s h)).0

  found-Safe :
      (d : Outcome k.Error Bool × (k.World × Pool))
      → f.Safe d.1.0
      → (d.0 ≡ ok true → f.IsPool d.1.1.metadata.uid)
      → f.Safe (found k d).1
  found-Safe (ok true, s) h p =
      reconcile_state-Safe (s.0, new_pool_state s.1)
        (h, record { is_pool = p refl; initializing = tt; available = tt; stale = tt })
  found-Safe (ok false, s) h p = h
  found-Safe (err e, s) h p = h
  found-Safe (panic, s) h p = h
  found-Safe (timeout, s) h p = h

  -- A reconcile of a pool, however it ends, keeps the server safe.
  pub reconcile-Safe : (key : Key) (w : k.World) → f.Safe w → f.Safe (reconcile k key w).1
  unfolding reconcile
  reconcile-Safe key w h =
      let d = k.load_pool (w, new_pool key) in
      found-Safe d (reads.load_pool-Safe (w, new_pool key) h)
        λ e. pools.load_pool-IsPool key w d.1 h (with_outcome d e)
