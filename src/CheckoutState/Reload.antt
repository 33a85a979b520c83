-- ===== src/CheckoutState/Reload.antt =====
-- What Load of CheckoutState finds of what Persist (pkg/controller/app/checkout_state.go) wrote.
use pvpool.Prelude.{◌≡◌, refl, sym, ap, subst, ◌∙◌, String, Bool, true, ◌&&◌, some, if◌then◌else◌}
use pvpool.Exec.{Outcome, ok, err, panic, timeout, pure, continue, modify}
use pvpool.Exec.Rules.{Gives, Gives-bind}
use pvpool.Api.Core.{Pv}
use pvpool.Api.State.{CheckoutState}
use pvpool.Kube.{Kube}
use pvpool.Kube.Store.{Store, StoreLaws}
use pvpool.CheckoutState.Pairs.{Pair, claim_of, volume_of, put_volume, on_claim}
use pvpool.CheckoutState.Load.{is_controller, refers_to, adopt_volume, load_pair}
use pvpool.CheckoutState.Persist.{persist_pair}
use pvpool.CheckoutState.Stored.{
  IsStored, Failed, on_claim-Gives, claim_of-put_volume, volume_of-put_volume,
  persist_pair-IsStored,
}

module _ (k : Kube) (st : Store k) (laws : StoreLaws k st) (p : Pair) (uid : String) where
  -- The next reconcile's state, with a claim under the same key.
  abbrev SamePair : k.World × CheckoutState → k.World × CheckoutState → Type 0
  SamePair s t = (claim_of p t.1 ≡ claim_of p s.1) × (volume_of p t.1 ≡ volume_of p s.1)

  adopt_volume-SamePair :
      (s t : k.World × CheckoutState) (v : Pv)
      → claim_of p t.1 ≡ claim_of p s.1
      → volume_of p s.1 ≡ some v
      → st.HasVolume t.0 v
      → (claim_of p s.1).spec.volume_name ≡ v.name
      → refers_to (claim_of p s.1).metadata.uid v.spec.claim_ref ≡ true
      → Gives (λ _. SamePair s) (Failed k st laws p uid) (adopt_volume k p t)
  adopt_volume-SamePair s t v same is has named refers =
      go (k.load_pv (t.0, k.new_pv (claim_of p t.1).spec.volume_name)) (
        laws.load_pv-HasVolume (t.0, k.new_pv (claim_of p t.1).spec.volume_name) v has
          (laws.new_pv-name _ ∙ ap (λ c. c.spec.volume_name) same ∙ named))
    where
      go :
          (d : Outcome k.Error Bool × (k.World × Pv))
          → Gives (λ found u. (found ≡ true) × (u.1 ≡ v)) (λ _. Unit {0}) d
          → Gives
              (λ _. SamePair s)
              (Failed k st laws p uid)
              (continue {S = k.World × CheckoutState} d.0
                (λ found.
                  if found && refers_to (claim_of p t.1).metadata.uid d.1.1.spec.claim_ref
                  then modify (λ u. (u.0, put_volume p (some d.1.1) u.1))
                  else pure tt)
                (d.1.0, t.1))
      go (ok found, u) g =
          let takes : (found && refers_to (claim_of p t.1).metadata.uid u.1.spec.claim_ref) ≡ true =
            rw (g.0, g.1, same) refers in
          rw takes (
            claim_of-put_volume p (some u.1) t.1 ∙ same,
            volume_of-put_volume p (some u.1) t.1 ∙ ap (λ x. some x) g.1 ∙ sym is,
          )
      go (err e, u) g = tt
      go (panic, u) g = tt
      go (timeout, u) g = tt

  load_pair-SamePair :
      (s t : k.World × CheckoutState)
      → IsStored k st p uid s
      → s.0 ≡ t.0
      → t.1.checkout.metadata.uid ≡ uid
      → (claim_of p t.1).key ≡ (claim_of p s.1).key
      → Gives (λ _. SamePair s) (Failed k st laws p uid) (load_pair k p t)
  unfolding load_pair
  load_pair-SamePair s t h world is key =
      Gives-bind
        (λ found u.
          ((found ≡ true)
            × (claim_of p u.1 ≡ claim_of p s.1)
            × ((v : Pv) → st.HasVolume t.0 v → st.HasVolume u.0 v))
          × (volume_of p u.1 ≡ volume_of p t.1)
          × (u.1.checkout ≡ t.1.checkout))
        (λ _. SamePair s) (Failed k st laws p uid) (on_claim k p k.load_pvc) _ t
        (on_claim-Gives k st laws p uid _ k.load_pvc t (
          laws.load_pvc-HasClaim (t.0, claim_of p t.1) (claim_of p s.1)
            (subst (λ w. st.HasClaim w (claim_of p s.1)) world h.has_claim) key))
        λ found u g.
          let own : is_controller u.1.checkout.metadata.uid
                (k.controller_of (claim_of p u.1).metadata)
              ≡ true =
            ap (λ a. is_controller a (k.controller_of (claim_of p u.1).metadata))
              (ap (λ c. c.metadata.uid) g.2 ∙ is)
            ∙ ap (λ c. is_controller uid (k.controller_of c.metadata)) g.0.1
            ∙ h.controls in
          rw (g.0.0, own)
            (adopt_volume-SamePair s u h.v g.0.1 h.is_volume
              (g.0.2 h.v (subst (λ w. st.HasVolume w h.v) world h.has_volume)) h.named h.refers)

  -- What Persist wrote for a claim and its volume is what Load gives back: a Load that succeeds
  -- right after a round of Persist that succeeded has the same claim and the same volume, and so
  -- takes no other volume for it. This is so where the volume is the one that the claim names, and
  -- where the server gives out what was persisted.
  pub load_pair-persist_pair :
      (v : Pv) (s s' : k.World × CheckoutState) (fresh : CheckoutState)
      (t : k.World × CheckoutState)
      → s.1.checkout.metadata.uid ≡ uid
      → volume_of p s.1 ≡ some v
      → (claim_of p s.1).spec.volume_name ≡ v.name
      → persist_pair k p s ≡ (ok tt, s')
      → fresh.checkout.metadata.uid ≡ uid
      → (claim_of p fresh).key ≡ (claim_of p s'.1).key
      → load_pair k p (s'.0, fresh) ≡ (ok tt, t)
      → (claim_of p t.1 ≡ claim_of p s'.1) × (volume_of p t.1 ≡ volume_of p s'.1)
  load_pair-persist_pair v s s' fresh t is e named run is' key run' =
      subst (Gives (λ _. SamePair s') (Failed k st laws p uid)) run' (
        load_pair-SamePair s' (s'.0, fresh)
          (subst (Gives (λ _. IsStored k st p uid) (Failed k st laws p uid)) run
            (persist_pair-IsStored k st laws p uid v s is e named))
          refl is' key)
