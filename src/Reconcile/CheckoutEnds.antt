-- ===== src/Reconcile/CheckoutEnds.antt =====
-- How a reconcile of a checkout (pkg/controller/reconciler/checkout.go) ends.
use pvpool.Prelude.{◌≡◌, refl, Bool, true, false}
use pvpool.Exec.{Outcome, ok, err, panic, timeout, Returns}
use pvpool.Api.Core.{Key}
use pvpool.Api.Resources.{Checkout, new_checkout}
use pvpool.Api.State.{CheckoutState}
use pvpool.Kube.{Kube}
use pvpool.Kube.Laws.{AnnotateLaws, PersistLaws, LoadLaws, ReconcileLaws, SortLaws}
use pvpool.CheckoutState.Pairs.{new_checkout_state}
use pvpool.CheckoutState.Load
use pvpool.CheckoutState.LoadEnds
use pvpool.CheckoutState.Persist
use pvpool.CheckoutState.Configure.{configure_checkout_state}
use pvpool.CheckoutState.Status.{configure_checkout}
use pvpool.CheckoutState.Safety.{persist_after_load-Returns}
use pvpool.Reconcile.PoolEnds.{reply_of-Returns, after_status-Returns}
use pvpool.Reconcile.Checkouts.{loaded, body, reconcile_state, found, reconcile}

module _ (k : Kube) (annotates : AnnotateLaws k) (persists : PersistLaws k) (loads : LoadLaws k)
    (calls : ReconcileLaws k) (sorts : SortLaws k) where
  loaded-Returns :
      (s : k.World × CheckoutState) (d : Outcome k.Error Bool × (k.World × CheckoutState))
      → Load.load k s ≡ d
      → Returns d.0
      → Returns (loaded k d).0
  loaded-Returns s (ok true, t) e h =
      reply_of-Returns false (Persist.persist k (t.0, configure_checkout_state k t.1)).0
        (persist_after_load-Returns k persists s t annotates e)
  loaded-Returns s (ok false, t) e h = tt
  loaded-Returns s (err x, t) e h = tt
  loaded-Returns s (panic, t) e h = absurd h
  loaded-Returns s (timeout, t) e h = absurd h

  reconcile_state-Returns : (s : k.World × CheckoutState) → Returns (reconcile_state k s).0
  unfolding reconcile_state body
  reconcile_state-Returns s =
      let (res, t) = body k s in
      let checkout = configure_checkout (k.now t.0) t.1 in
      after_status-Returns res (k.update_checkout_status (t.0, checkout)).0
        (loaded-Returns s (Load.load k s) refl (LoadEnds.load-Returns k loads calls sorts s))
        (calls.update_checkout_status-Returns (t.0, checkout))

  found-Returns :
      (d : Outcome k.Error Bool × (k.World × Checkout)) → Returns d.0 → Returns (found k d).0
  found-Returns (ok true, s) h = reconcile_state-Returns (s.0, new_checkout_state k s.1)
  found-Returns (ok false, s) h = tt
  found-Returns (err e, s) h = tt
  found-Returns (panic, s) h = absurd h
  found-Returns (timeout, s) h = absurd h

  -- Where third-party calls give a value or an error, a bound volume has a ClaimRef and sorting
  -- keeps the elements, a reconcile of a checkout comes to an end with a reply or an error: every
  -- pointer that it follows on the way is set.
  pub reconcile_checkout-Returns : (key : Key) (w : k.World) → Returns (reconcile k key w).0
  unfolding reconcile
  reconcile_checkout-Returns key w =
      found-Returns (k.load_checkout (w, new_checkout key))
        (calls.load_checkout-Returns (w, new_checkout key))
