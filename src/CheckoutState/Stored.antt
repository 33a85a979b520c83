-- ===== src/CheckoutState/Stored.antt =====
-- What a round of Persist (pkg/controller/app/checkout_state.go) leaves on the API server.
use pvpool.Prelude.{
  ◌≡◌, refl, sym, subst, ◌∙◌, String, true, eq_refl, Option, none, some, Bool-cases, inl, inr,
}
use pvpool.Exec.{Outcome, ok, err, panic, timeout, Exec, deref, handle, catch}
use pvpool.Exec.Rules.{Gives, Gives-bind, Gives-imp}
use pvpool.Api.Core.{Pvc, Pv, ObjectReference}
use pvpool.Api.State.{CheckoutState}
use pvpool.Kube.{Kube}
use pvpool.Kube.Store.{Store, StoreLaws}
use pvpool.CheckoutState.Pairs.{
  Pair, locked, final, claim_of, volume_of, put_claim, put_volume, on_claim,
}
use pvpool.CheckoutState.Load.{is_controller, refers_to}
use pvpool.CheckoutState.Ownership.{volume_of-put_claim}
use pvpool.CheckoutState.Persist.{with_uid, claim_failed, persist_volume, persist_pair}

claim_of-put_claim : (p : Pair) (c : Pvc) (cs : CheckoutState) → claim_of p (put_claim p c cs) ≡ c
claim_of-put_claim locked c cs = refl
claim_of-put_claim final c cs = refl

checkout-put_claim :
    (p : Pair) (c : Pvc) (cs : CheckoutState) → (put_claim p c cs).checkout ≡ cs.checkout
checkout-put_claim locked c cs = refl
checkout-put_claim final c cs = refl

pub claim_of-put_volume :
    (p : Pair) (o : Option Pv) (cs : CheckoutState) → claim_of p (put_volume p o cs) ≡ claim_of p cs
claim_of-put_volume locked o cs = refl
claim_of-put_volume final o cs = refl

pub volume_of-put_volume :
    (p : Pair) (o : Option Pv) (cs : CheckoutState) → volume_of p (put_volume p o cs) ≡ o
volume_of-put_volume locked o cs = refl
volume_of-put_volume final o cs = refl

module _ (k : Kube) (st : Store k) where
  -- The server has a pair's claim, which a checkout controls, and its volume, each of which names
  -- the other.
  pub record IsStored (p : Pair) (uid : String) (s : k.World × CheckoutState) : Type 0 where
    pub v : Pv
    pub has_claim : st.HasClaim s.0 (claim_of p s.1)
    pub controls : is_controller uid (k.controller_of (claim_of p s.1).metadata) ≡ true
    pub is_volume : volume_of p s.1 ≡ some v
    pub has_volume : st.HasVolume s.0 v
    pub named : (claim_of p s.1).spec.volume_name ≡ v.name
    pub refers : refers_to (claim_of p s.1).metadata.uid v.spec.claim_ref ≡ true

  module _ (laws : StoreLaws k st) (p : Pair) (uid : String) where
    abbrev pub Failed : k.World × CheckoutState → Type 0
    Failed t = Unit {0}

    -- What a call on a claim gives, as a call on the claim of the pair.
    pub on_claim-Gives :
        {A : Type 0} (Q : A → k.World × Pvc → Type 0) (m : Exec k.Error (k.World × Pvc) A)
        (s : k.World × CheckoutState)
        → Gives Q (λ _. Unit {0}) (m (s.0, claim_of p s.1))
        → Gives
            (λ a t.
              Q a (t.0, claim_of p t.1)
              × (volume_of p t.1 ≡ volume_of p s.1)
              × (t.1.checkout ≡ s.1.checkout))
            Failed
            (on_claim k p m s)
    on_claim-Gives {A} Q m s g = go (m (s.0, claim_of p s.1)) g
      where
        go :
            (d : Outcome k.Error A × (k.World × Pvc))
            → Gives Q (λ _. Unit {0}) d
            → Gives
                (λ a t.
                  Q a (t.0, claim_of p t.1)
                  × (volume_of p t.1 ≡ volume_of p s.1)
                  × (t.1.checkout ≡ s.1.checkout))
                Failed
                (d.0, (d.1.0, put_claim p d.1.1 s.1))
        go (ok a, t) h = (
          subst (λ c. Q a (t.0, c)) (sym (claim_of-put_claim p t.1 s.1)) h,
          volume_of-put_claim p t.1 s.1,
          checkout-put_claim p t.1 s.1,
        )
        go (err e, t) h = tt
        go (panic, t) h = tt
        go (timeout, t) h = tt

    -- A claim that the checkout controls and that names the volume that it is meant for.
    abbrev Meant : Pv → k.World × CheckoutState → Type 0
    Meant v t =
        (is_controller uid (k.controller_of (claim_of p t.1).metadata) ≡ true)
        × ((claim_of p t.1).spec.volume_name ≡ v.name)
        × (volume_of p t.1 ≡ some v)

    abbrev Written : Pv → k.World × CheckoutState → Type 0
    Written v t = st.HasClaim t.0 (claim_of p t.1) × Meant v t

    catch_claim-Written :
        (v : Pv) (s : k.World × CheckoutState)
        → Meant v s
        → Gives (λ _. Written v) Failed (catch (on_claim k p k.persist_pvc) (claim_failed k p) s)
    catch_claim-Written v s h =
        go (on_claim k p k.persist_pvc s)
          (on_claim-Gives _ k.persist_pvc s (laws.persist_pvc-HasClaim (s.0, claim_of p s.1)))
      where
        go :
            (d : Outcome k.Error (Unit {0}) × (k.World × CheckoutState))
            → Gives
                (λ _ t.
                  (st.HasClaim t.0 (claim_of p t.1)
                    × (k.controller_of (claim_of p t.1).metadata
                        ≡ k.controller_of (claim_of p s.1).metadata)
                    × ((claim_of p t.1).spec.volume_name ≡ (claim_of p s.1).spec.volume_name))
                  × (volume_of p t.1 ≡ volume_of p s.1)
                  × (t.1.checkout ≡ s.1.checkout))
                Failed
                d
            → Gives (λ _. Written v) Failed (handle d.0 (claim_failed k p) d.1)
        go (ok _, t) g = (g.0.0, (rw g.0.1 h.0, g.0.2 ∙ h.1, g.1 ∙ h.2))
        go (err e, t) g = elim (Bool-cases (k.is_invalid e)) [
          | inl bad ↦ rw bad tt
          | inr good ↦ rw good tt
        ]
        go (panic, t) g = tt
        go (timeout, t) g = tt

    persist_volume-IsStored :
        (v : Pv) (ref : ObjectReference) (s : k.World × CheckoutState)
        → v.spec.claim_ref ≡ some ref
        → Written v s
        → Gives
            (λ _. IsStored p uid)
            Failed
            (persist_volume k p (with_uid (claim_of p s.1).metadata.uid v) s)
    persist_volume-IsStored v ref s e h =
        go (k.persist_pv (s.0, u)) (laws.persist_pv-HasVolume (s.0, u) (rw e refl))
          (laws.persist_pv-HasClaim (s.0, u) (claim_of p s.1) h.0)
      where
        u : Pv
        u = with_uid (claim_of p s.1).metadata.uid v

        go :
            (d : Outcome k.Error (Unit {0}) × (k.World × Pv))
            → Gives
                (λ _ t.
                  st.HasVolume t.0 t.1
                  × (t.1.name ≡ u.name)
                  × (t.1.spec.claim_ref ≡ u.spec.claim_ref))
                (λ _. Unit {0})
                d
            → st.HasClaim d.1.0 (claim_of p s.1)
            → Gives (λ _. IsStored p uid) Failed (d.0, (d.1.0, put_volume p (some d.1.1) s.1))
        go (ok _, t) g c =
            let same = claim_of-put_volume p (some t.1) s.1 in
            let refs : t.1.spec.claim_ref
                ≡ some (record ref { uid = (claim_of p s.1).metadata.uid }) =
              g.2 ∙ rw e refl in
            record {
              v = t.1;
              has_claim = subst (st.HasClaim t.0) (sym same) c;
              controls = rw same h.1.0;
              is_volume = volume_of-put_volume p (some t.1) s.1;
              has_volume = g.0;
              named = rw same (h.1.1 ∙ sym g.1);
              refers = rw (same, refs) (eq_refl _);
            }
        go (err x, t) g c = tt
        go (panic, t) g c = tt
        go (timeout, t) g c = tt

    pub deref-Gives :
        {A : Type 0} (o : Option A) (u : k.World × CheckoutState)
        → Gives {E = k.Error} (λ a x. (o ≡ some a) × (x ≡ u)) Failed (deref o u)
    deref-Gives none u = tt
    deref-Gives (some a) u = (refl, refl)

    -- What a round of Persist that succeeds leaves on the server.
    pub persist_pair-IsStored :
        (v : Pv) (s : k.World × CheckoutState)
        → s.1.checkout.metadata.uid ≡ uid
        → volume_of p s.1 ≡ some v
        → (claim_of p s.1).spec.volume_name ≡ v.name
        → Gives (λ _. IsStored p uid) Failed (persist_pair k p s)
    unfolding persist_pair
    persist_pair-IsStored v s is e named =
        Gives-bind (λ _. Meant v) (λ _. IsStored p uid) Failed
          (on_claim k p (k.checkout_owns s.1.checkout)) _ s
          (Gives-imp _ (λ _. Meant v) Failed Failed _
            (λ _ t g. (
              subst (λ u. is_controller u (k.controller_of (claim_of p t.1).metadata) ≡ true) is
                  g.0.0,
              g.0.1 ∙ named,
              g.1 ∙ e,
            ))
            (λ _ _. tt)
            (on_claim-Gives _ (k.checkout_owns s.1.checkout) s
              (laws.checkout_owns-Controls s.1.checkout (s.0, claim_of p s.1))))
          λ _ t ht.
            Gives-bind (λ _. Written v) (λ _. IsStored p uid) Failed
              (catch (on_claim k p k.persist_pvc) (claim_failed k p)) _ t
              (catch_claim-Written v t ht)
              λ _ u hu. rw hu.1.2 (
                Gives-bind (λ ref x. (v.spec.claim_ref ≡ some ref) × (x ≡ u)) (λ _. IsStored p uid)
                  Failed (deref v.spec.claim_ref)
                  (λ _. persist_volume k p (with_uid (claim_of p u.1).metadata.uid v)) u
                  (deref-Gives v.spec.claim_ref u)
                  λ ref x r.
                    subst
                      (λ y.
                        Gives (λ _. IsStored p uid) Failed
                          (persist_volume k p (with_uid (claim_of p u.1).metadata.uid v) y))
                      (sym r.1) (persist_volume-IsStored v ref u r.0 hu))
