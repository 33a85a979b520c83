-- ===== src/Reconcile/SettledPool.antt =====
-- What a reconcile of a pool without an error and without a requeue has done.
use pvpool.Exec.Rules.{outcome-run, state-run, with_outcome}
use pvpool.Prelude.{◌≡◌, refl, Bool, true, false, Bool-cases, inl, inr}
use pvpool.Exec.{Outcome, ok, err, panic, timeout}
use pvpool.Api.Resources.{Pool}
use pvpool.Api.State.{PoolState}
use pvpool.Kube.{Kube}
use pvpool.PoolState.Load
use pvpool.PoolState.Persist
use pvpool.PoolState.Configure.{configure_pool_state, configure_pool}
use pvpool.Reconcile.Reply.{Reply, after_status}
use pvpool.Reconcile.Settled.{quiet, after_status-eq-quiet, reply_of-eq-quiet}
use pvpool.Reconcile.Pools.{
  finalizer_name, cleanup, finalized, finish, loaded, body, save_status, reconcile_state,
}

module _ (k : Kube) where
  -- From the state that was loaded to the one that the status is made from: the pool was on its way
  -- out and Finalize is done with it, or it stays and its state was configured and persisted.
  pub data Done (s after : k.World × PoolState) : Type 0 where
    cleaned : k.finalize finalizer_name (cleanup k) s ≡ (ok true, after) → Done s after
    persisted :
        (t : k.World × PoolState)
        → k.finalize finalizer_name (cleanup k) s ≡ (ok false, t)
        → Persist.persist k (t.0, configure_pool_state k t.1) ≡ (ok tt, after)
        → Done s after

  abbrev status_of : k.World × PoolState → Pool
  status_of s = configure_pool (k.now s.0) s.1

  pub data Saved (after : k.World × PoolState) (w : k.World) : Type 0 where
    skipped : k.finalizing (status_of after) ≡ true → w ≡ after.0 → Saved after w
    saved :
        (v : k.World × Pool)
        → k.finalizing (status_of after) ≡ false
        → k.update_pool_status (after.0, status_of after) ≡ (ok tt, v)
        → w ≡ v.0
        → Saved after w

  pub record IsPoolSettled (s : k.World × PoolState) (w : k.World) : Type 0 where
    pub found : k.World × PoolState
    pub after : k.World × PoolState
    pub is_loaded : Load.load k s ≡ (ok true, found)
    pub is_done : Done found after
    pub is_saved : Saved after w

  abbrev Run : Type 0
  Run = Outcome k.Error (Reply k.Error) × k.World

  save_status_run :
      (res : Outcome k.Error (Reply k.Error)) (after : k.World × PoolState) (w : k.World)
      → save_status k res after ≡ (quiet, w)
      → (res ≡ quiet) × Saved after w
  save_status_run res after w h = elim (Bool-cases (k.finalizing (status_of after))) [
    | inl leaving ↦
        let e : ◌≡◌ {A = Run} (res, after.0) (quiet, w) = rw leaving at h in
        (outcome-run e, skipped leaving (state-run e))
    | inr stays ↦
        let update = k.update_pool_status (after.0, status_of after) in
        let e : ◌≡◌ {A = Run} (after_status res update.0, update.1.0) (quiet, w) = rw stays at h in
        let (ended, done) = after_status-eq-quiet res update.0 (outcome-run e) in
        (ended, saved update.1 stays (with_outcome update done) (state-run e))
  ]

  finalized_run :
      (s : k.World × PoolState) (d : Outcome k.Error Bool × (k.World × PoolState))
      → k.finalize finalizer_name (cleanup k) s ≡ d
      → (finalized k d).0 ≡ quiet
      → Done s (finalized k d).1
  finalized_run s (ok true, t) e h = cleaned e
  finalized_run s (ok false, t) e h =
      let run = Persist.persist k (t.0, configure_pool_state k t.1) in
      persisted t e (with_outcome run (reply_of-eq-quiet run.0 h))
  finalized_run s (err x, t) e h = absurd (cc)
  finalized_run s (panic, t) e h = absurd (cc)
  finalized_run s (timeout, t) e h = absurd (cc)

  loaded_run :
      (d : Outcome k.Error Bool × (k.World × PoolState))
      → (loaded k d).0 ≡ quiet
      → (t : k.World × PoolState) × (d ≡ (ok true, t)) × Done t (loaded k d).1
  unfolding finish
  loaded_run (ok true, t) h =
      (t, refl, finalized_run t (k.finalize finalizer_name (cleanup k) t) refl h)
  loaded_run (ok false, t) h = absurd (cc)
  loaded_run (err x, t) h = absurd (cc)
  loaded_run (panic, t) h = absurd (cc)
  loaded_run (timeout, t) h = absurd (cc)

  -- A reconcile of a pool that reports no error and asks for no requeue has loaded its replicas and
  -- either finalized the pool, without persisting anything, or persisted what ConfigurePoolState
  -- made of the state; after that it saved the status, unless the pool is on its way out.
  pub reconcile_state-IsPoolSettled :
      (s : k.World × PoolState) (w : k.World) → reconcile_state k s ≡ (quiet, w) → IsPoolSettled s w
  unfolding reconcile_state body
  reconcile_state-IsPoolSettled s w h =
      let (ended, saves) = save_status_run (body k s).0 (body k s).1 w h in
      let (found, e, done) = loaded_run (Load.load k s) ended in
      record {
        found = found;
        after = (body k s).1;
        is_loaded = e;
        is_done = done;
        is_saved = saves;
      }
