-- ===== src/Reconcile/Checkouts.antt =====
-- pkg/controller/reconciler/checkout.go.
use pvpool.Prelude.{Bool, true, false, none, some}
use pvpool.Exec.{Outcome, ok, err, panic, timeout}
use pvpool.Api.Core.{Key}
use pvpool.Api.Resources.{Checkout, new_checkout}
use pvpool.Api.State.{CheckoutState}
use pvpool.Kube.{Kube}
use pvpool.CheckoutState.Pairs.{new_checkout_state}
use pvpool.CheckoutState.Load
use pvpool.CheckoutState.Configure.{configure_checkout_state}
use pvpool.CheckoutState.Persist
use pvpool.CheckoutState.Status.{configure_checkout}
use pvpool.Reconcile.Reply.{Reply, answer, reply_of, after_status}

module _ (k : Kube) where
  abbrev persisted :
      k.World × CheckoutState → Outcome k.Error (Reply k.Error) × (k.World × CheckoutState)
  persisted s = let (res, s') = Persist.persist k s in (reply_of false res, s')

  -- The body of Reconcile, from the outcome of the state's Load on.
  abbrev pub loaded :
      Outcome k.Error Bool × (k.World × CheckoutState)
      → Outcome k.Error (Reply k.Error) × (k.World × CheckoutState)
  loaded (ok true, s) = persisted (s.0, configure_checkout_state k s.1)
  loaded (ok false, s) = (answer true none, s)
  loaded (err e, s) = (answer true (some e), s)
  loaded (panic, s) = (panic, s)
  loaded (timeout, s) = (timeout, s)

  unfoldable pub body :
      k.World × CheckoutState → Outcome k.Error (Reply k.Error) × (k.World × CheckoutState)
  body s = loaded (Load.load k s)

  -- The body, and the deferred update of the status.
  unfoldable pub reconcile_state :
      k.World × CheckoutState → Outcome k.Error (Reply k.Error) × k.World
  reconcile_state s =
      let (res, s') = body s in
      let (saved, t) = k.update_checkout_status (s'.0, configure_checkout (k.now s'.0) s'.1) in
      (after_status res saved, t.0)

  -- Reconcile from what the checkout's Load gives.
  abbrev pub found :
      Outcome k.Error Bool × (k.World × Checkout) → Outcome k.Error (Reply k.Error) × k.World
  found (ok true, s) = reconcile_state (s.0, new_checkout_state k s.1)
  found (ok false, s) = (answer false none, s.0)
  found (err e, s) = (answer false (some e), s.0)
  found (panic, s) = (panic, s.0)
  found (timeout, s) = (timeout, s.0)

  unfoldable pub reconcile : Key → k.World → Outcome k.Error (Reply k.Error) × k.World
  reconcile key w = found (k.load_checkout (w, new_checkout key))
