-- ===== src/Reconcile/PoolEnds.antt =====
-- How a reconcile of a pool (pkg/controller/reconciler/pool.go) ends.
use pvpool.Prelude.{Bool, true, false, Bool-cases, inl, inr}
use pvpool.Exec.{Outcome, ok, err, panic, timeout, Returns, pure}
use pvpool.Exec.Rules.{Returns-bind}
use pvpool.Api.Core.{Key}
use pvpool.Api.Resources.{Pool, new_pool}
use pvpool.Api.State.{PoolState, new_pool_state}
use pvpool.Kube.{Kube}
use pvpool.Kube.Laws.{RandLaws, DeleteLaws, ReplicaLaws, LoadLaws, ReconcileLaws}
use pvpool.PoolState.Slots
use pvpool.PoolState.Load
use pvpool.PoolState.LoadEnds
use pvpool.PoolState.PersistEnds
use pvpool.PoolState.Persist
use pvpool.PoolState.Deletion.{delete-Returns}
use pvpool.PoolState.Configure.{configure_pool_state, configure_pool}
use pvpool.Reconcile.Reply.{Reply, reply_of, after_status}
use pvpool.Reconcile.Pools.{
  finalizer_name, cleanup, finalized, finish, loaded, body, save_status, reconcile_state, found,
  reconcile,
}

pub reply_of-Returns :
    {E A : Type 0} (requeue : Bool) (res : Outcome E A)
    → Returns res
    → Returns (reply_of requeue res)
reply_of-Returns requeue (ok a) h = tt
reply_of-Returns requeue (err e) h = tt
reply_of-Returns requeue panic h = absurd h
reply_of-Returns requeue timeout h = absurd h

pub after_status-Returns :
    {E : Type 0} (res : Outcome E (Reply E)) (saved : Outcome E (Unit {0}))
    → Returns res
    → Returns saved
    → Returns (after_status res saved)
after_status-Returns (ok r) (ok tt) h g = tt
after_status-Returns (ok r) (err e) h g = tt
after_status-Returns (ok r) panic h g = absurd g
after_status-Returns (ok r) timeout h g = absurd g
after_status-Returns (err e) saved h g = tt
after_status-Returns panic saved h g = absurd h
after_status-Returns timeout saved h g = absurd h

module _ (k : Kube) (rand : RandLaws k) (deletes : DeleteLaws k) (replica : ReplicaLaws k)
    (loads : LoadLaws k) (calls : ReconcileLaws k) where
  cleanup-Returns : (s : k.World × PoolState) → Returns (cleanup k s).0
  cleanup-Returns s =
      Returns-bind (Slots.delete k) (λ _. pure tt) s (delete-Returns k rand deletes s) λ _ _ _. tt

  finalized-Returns :
      (d : Outcome k.Error Bool × (k.World × PoolState)) → Returns d.0 → Returns (finalized k d).0
  finalized-Returns (ok true, s) h = tt
  finalized-Returns (ok false, s) h =
      reply_of-Returns false (Persist.persist k (s.0, configure_pool_state k s.1)).0 (
        PersistEnds.persist-Returns k rand deletes replica loads calls
          (s.0, configure_pool_state k s.1))
  finalized-Returns (err e, s) h = tt
  finalized-Returns (panic, s) h = absurd h
  finalized-Returns (timeout, s) h = absurd h

  loaded-Returns :
      (d : Outcome k.Error Bool × (k.World × PoolState)) → Returns d.0 → Returns (loaded k d).0
  unfolding finish
  loaded-Returns (ok true, s) h =
      finalized-Returns (k.finalize finalizer_name (cleanup k) s)
        (calls.finalize-Returns finalizer_name (cleanup k) s cleanup-Returns)
  loaded-Returns (ok false, s) h = tt
  loaded-Returns (err e, s) h = tt
  loaded-Returns (panic, s) h = absurd h
  loaded-Returns (timeout, s) h = absurd h

  save_status-Returns :
      (res : Outcome k.Error (Reply k.Error)) (s : k.World × PoolState)
      → Returns res
      → Returns (save_status k res s).0
  save_status-Returns res s h =
      let pool = configure_pool (k.now s.0) s.1 in
      elim (Bool-cases (k.finalizing pool)) [
        | inl leaving ↦ rw leaving h
        | inr stays ↦ rw stays (
            after_status-Returns res (k.update_pool_status (s.0, pool)).0 h
              (calls.update_pool_status-Returns (s.0, pool)))
      ]

  reconcile_state-Returns : (s : k.World × PoolState) → Returns (reconcile_state k s).0
  unfolding reconcile_state body
  reconcile_state-Returns s =
      save_status-Returns (body k s).0 (body k s).1
        (loaded-Returns (Load.load k s) (LoadEnds.load-Returns k loads s))

  found-Returns :
      (d : Outcome k.Error Bool × (k.World × Pool)) → Returns d.0 → Returns (found k d).0
  found-Returns (ok true, s) h = reconcile_state-Returns (s.0, new_pool_state s.1)
  found-Returns (ok false, s) h = tt
  found-Returns (err e, s) h = tt
  found-Returns (panic, s) h = absurd h
  found-Returns (timeout, s) h = absurd h

  -- Where third-party calls give a value or an error and a bound volume has a ClaimRef, a reconcile
  -- of a pool comes to an end with a reply or an error: no loop is cut off and nothing panics.
  pub reconcile_pool-Returns : (key : Key) (w : k.World) → Returns (reconcile k key w).0
  unfolding reconcile
  reconcile_pool-Returns key w =
      found-Returns (k.load_pool (w, new_pool key)) (calls.load_pool-Returns (w, new_pool key))
