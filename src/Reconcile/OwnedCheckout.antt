-- ===== src/Reconcile/OwnedCheckout.antt =====
-- Which claims and volumes a reconcile of a checkout (pkg/controller/reconciler/checkout.go) writes.
use pvpool.Prelude.{◌≡◌, refl, true, false, Bool, String, none}
use pvpool.Exec.{Outcome, ok, err, panic, timeout}
use pvpool.Exec.Rules.{with_outcome, Gives, Gives-both}
use pvpool.Api.Core.{Key, Pv}
use pvpool.Api.Resources.{Checkout, new_checkout}
use pvpool.Api.State.{CheckoutState}
use pvpool.Kube.{Kube}
use pvpool.Kube.Frame.{Frame, ReadLaws, ClaimLaws, PoolLaws, CheckoutLaws, VolumeLaws, KeyLaws}
use pvpool.CheckoutState.Pairs.{new_checkout_state}
use pvpool.CheckoutState.Load
use pvpool.CheckoutState.Configure.{new_volume, configure_checkout_state}
use pvpool.CheckoutState.OwnedLoad.{SafeHere}
use pvpool.CheckoutState.OwnedPick.{BothMine, load-BothMine}
use pvpool.CheckoutState.OwnedConfigure.{configure_checkout_state-AllMine}
use pvpool.CheckoutState.OwnedPersist.{VolumesMine, AllMine, persist-AllMine}
use pvpool.Reconcile.Checkouts.{loaded, body, reconcile_state, found, reconcile}

-- Which volumes a Load chooses, and that a volume that is made from one that may be written may be
-- written too.
pub record ChoiceLaws (k : Kube) (f : Frame k) (OwnVolume : String → Type 0) : Type 0 where
  pub load-VolumesMine :
      (c : Checkout) (w : k.World)
      → f.Safe w
      → f.IsCheckout c.metadata.uid
      → Gives
          (λ _ t. VolumesMine OwnVolume t.1)
          (λ _. Unit {0})
          (Load.load k (w, new_checkout_state k c))
  pub new_volume-Own : (u : Pv) → OwnVolume u.name → OwnVolume (new_volume k u none).name

module _ (k : Kube) (f : Frame k) (reads : ReadLaws k f) (claims : ClaimLaws k f)
    (pools : PoolLaws k f) (checkouts : CheckoutLaws k f) (OwnVolume : String → Type 0)
    (volumes : VolumeLaws k f OwnVolume) (choice : ChoiceLaws k f OwnVolume)
    (IsReconciled : Key → Type 0) (keys : KeyLaws k f IsReconciled) where
  loaded-Safe :
      (d : Outcome k.Error Bool × (k.World × CheckoutState))
      → Gives (λ _. AllMine k f OwnVolume reads claims checkouts volumes) (SafeHere k f) d
      → f.Safe (loaded k d).1.0
  loaded-Safe (ok true, s) h =
      (persist-AllMine k f OwnVolume reads claims checkouts volumes
        (s.0, configure_checkout_state k s.1)
        (configure_checkout_state-AllMine k f OwnVolume reads claims checkouts volumes
          choice.new_volume-Own s h)).0.safe
  loaded-Safe (ok false, s) h = h.0.safe
  loaded-Safe (err e, s) h = h
  loaded-Safe (panic, s) h = h
  loaded-Safe (timeout, s) h = h

  found-Safe :
      (d : Outcome k.Error Bool × (k.World × Checkout))
      → f.Safe d.1.0
      → (d.0 ≡ ok true → f.IsCheckout d.1.1.metadata.uid)
      → f.Safe (found k d).1
  unfolding reconcile_state body new_checkout_state
  found-Safe (ok true, s) h is = checkouts.update_checkout_status-Safe _ (
      loaded-Safe (Load.load k (s.0, new_checkout_state k s.1)) (
        let start : k.World × CheckoutState = (s.0, new_checkout_state k s.1) in
        Gives-both (λ _. BothMine k f) (λ _ t. VolumesMine OwnVolume t.1) (SafeHere k f)
          (λ _. Unit {0}) (Load.load k start)
          (load-BothMine k f reads claims pools checkouts start h (is refl))
          (choice.load-VolumesMine s.1 s.0 h (is refl))))
  found-Safe (ok false, s) h is = h
  found-Safe (err e, s) h is = h
  found-Safe (panic, s) h is = h
  found-Safe (timeout, s) h is = h

  -- A reconcile of a checkout, however it ends, keeps the server safe.
  pub reconcile-Safe :
      (key : Key) (w : k.World) → IsReconciled key → f.Safe w → f.Safe (reconcile k key w).1
  unfolding reconcile
  reconcile-Safe key w is h =
      let d = k.load_checkout (w, new_checkout key) in
      found-Safe d (checkouts.load_checkout-Safe (w, new_checkout key) h)
        λ e. keys.load_checkout-IsCheckout key w d.1 is h (with_outcome d e)
