-- ===== src/Reconcile/Settled.antt =====
-- What a Reconcile without an error and without a requeue has done.
use pvpool.Exec.Rules.{outcome-run, state-run, with_outcome}
use pvpool.Prelude.{◌≡◌, refl, Bool, true, false, Option, none, some}
use pvpool.Exec.{Outcome, ok, err, panic, timeout}
use pvpool.Api.Resources.{Checkout}
use pvpool.Api.State.{CheckoutState}
use pvpool.Kube.{Kube}
use pvpool.CheckoutState.Load
use pvpool.CheckoutState.Configure.{configure_checkout_state}
use pvpool.CheckoutState.Persist
use pvpool.CheckoutState.Status.{configure_checkout}
use pvpool.Reconcile.Reply.{Reply, answer, reply_of, after_status}
use pvpool.Reconcile.Checkouts.{body, loaded, reconcile_state}

-- Neither an error nor a requeue.
abbrev pub quiet : {E : Type 0} → Outcome E (Reply E)
quiet = answer false none

with_error-eq-quiet :
    {E : Type 0} (q : Bool) (o : Option E) (saved : Outcome E (Unit {0}))
    → after_status (answer q o) saved ≡ quiet
    → (answer q o ≡ quiet) × (saved ≡ ok tt)
with_error-eq-quiet q none (ok tt) h = (h, refl)
with_error-eq-quiet q (some x) (ok tt) h = absurd (cc)
with_error-eq-quiet q none (err e) h = absurd (cc)
with_error-eq-quiet q (some x) (err e) h = absurd (cc)
with_error-eq-quiet q o panic h = absurd (cc)
with_error-eq-quiet q o timeout h = absurd (cc)

-- The status update keeps a reply quiet only if it succeeded.
pub after_status-eq-quiet :
    {E : Type 0} (res : Outcome E (Reply E)) (saved : Outcome E (Unit {0}))
    → after_status res saved ≡ quiet
    → (res ≡ quiet) × (saved ≡ ok tt)
after_status-eq-quiet (ok r) saved h = with_error-eq-quiet r.requeue r.error saved h
after_status-eq-quiet (err e) saved h = absurd (cc)
after_status-eq-quiet panic saved h = absurd (cc)
after_status-eq-quiet timeout saved h = absurd (cc)

pub reply_of-eq-quiet :
    {E : Type 0} (res : Outcome E (Unit {0})) → reply_of false res ≡ quiet → res ≡ ok tt
reply_of-eq-quiet (ok tt) h = refl
reply_of-eq-quiet (err e) h = absurd (cc)
reply_of-eq-quiet panic h = absurd (cc)
reply_of-eq-quiet timeout h = absurd (cc)

module _ (k : Kube) where
  -- What was loaded, what was persisted, and what the status update left.
  pub record IsSettled (s : k.World × CheckoutState) (w : k.World) : Type 0 where
    pub found : k.World × CheckoutState
    pub persisted : k.World × CheckoutState
    pub saved : k.World × Checkout
    pub is_loaded : Load.load k s ≡ (ok true, found)
    pub is_persisted :
        Persist.persist k (found.0, configure_checkout_state k found.1) ≡ (ok tt, persisted)
    pub is_saved :
        k.update_checkout_status (persisted.0, configure_checkout (k.now persisted.0) persisted.1)
        ≡ (ok tt, saved)
    pub same_world : w ≡ saved.0

  abbrev Run : Type 0
  Run = Outcome k.Error (Reply k.Error) × (k.World × CheckoutState)

  -- A body that ends quietly has loaded and persisted.
  loaded_run :
      (d : Outcome k.Error Bool × (k.World × CheckoutState))
      → (loaded k d).0 ≡ quiet
      → (t : k.World × CheckoutState) × (d ≡ (ok true, t))
        × (Persist.persist k (t.0, configure_checkout_state k t.1) ≡ (ok tt, (loaded k d).1))
  loaded_run (ok true, t) h =
      let run = Persist.persist k (t.0, configure_checkout_state k t.1) in
      (t, refl, with_outcome run (reply_of-eq-quiet run.0 h))
  loaded_run (ok false, t) h = absurd (cc)
  loaded_run (err x, t) h = absurd (cc)
  loaded_run (panic, t) h = absurd (cc)
  loaded_run (timeout, t) h = absurd (cc)

  -- A reconcile of a checkout that reports no error and asks for no requeue has loaded the checkout,
  -- persisted what ConfigureCheckoutState made of it, and saved the status that follows from the
  -- state after that; nothing came after the status.
  pub reconcile_state-IsSettled :
      (s : k.World × CheckoutState) (w : k.World) → reconcile_state k s ≡ (quiet, w) → IsSettled s w
  unfolding reconcile_state body
  reconcile_state-IsSettled s w h =
      let (_, after) = body k s in
      let update = k.update_checkout_status (after.0, configure_checkout (k.now after.0) after.1) in
      let (ended, saved) = after_status-eq-quiet (body k s).0 update.0 (outcome-run h) in
      let (found, e, p) = loaded_run (Load.load k s) ended in
      record {
        found = found;
        persisted = after;
        saved = update.1;
        is_loaded = e;
        is_persisted = p;
        is_saved = with_outcome update saved;
        same_world = state-run h;
      }
