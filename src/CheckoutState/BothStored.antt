-- ===== src/CheckoutState/BothStored.antt =====
-- What a whole Persist of a checkout that is not bound yet (pkg/controller/app/checkout_state.go)
-- leaves on the API server.
use pvpool.Prelude.{
  ◌≡◌, refl, sym, ap, subst, ◌∙◌, String, some, Bool-cases, Option-cases, inl, inr,
}
use pvpool.Prelude.Members.{some-eq}
use pvpool.Exec.{Outcome, ok, err, panic, timeout, deref, catch, handle}
use pvpool.Exec.Rules.{Gives, Gives-bind, Gives-always, Gives-imp}
use pvpool.Api.Core.{Pvc, Pv}
use pvpool.Api.Resources.{Checkout}
use pvpool.Api.State.{CheckoutState}
use pvpool.Kube.{Kube}
use pvpool.Kube.Store.{Store, StoreLaws, OtherLaws}
use pvpool.CheckoutState.Pairs.{Pair, locked, final, claim_of, volume_of, put_claim, on_claim}
use pvpool.CheckoutState.Persist.{with_uid, claim_failed, persist_volume, persist_pair}
use pvpool.CheckoutState.Stored.{IsStored, deref-Gives}

module _ (k : Kube) (st : Store k) (laws : StoreLaws k st) where
  abbrev Lost : k.World × CheckoutState → Type 0
  Lost t = Unit {0}

  catch_claim-keeps :
      (P : k.World × CheckoutState → Type 0) (p : Pair)
      → ((t : k.World × CheckoutState) → P t → P (on_claim k p k.persist_pvc t).1)
      → (s : k.World × CheckoutState) → P s
      → Gives (λ _. P) Lost (catch (on_claim k p k.persist_pvc) (claim_failed k p) s)
  catch_claim-keeps P p writes s h = go (on_claim k p k.persist_pvc s) (writes s h)
    where
      go :
          (d : Outcome k.Error (Unit {0}) × (k.World × CheckoutState))
          → P d.1
          → Gives (λ _. P) Lost (handle d.0 (claim_failed k p) d.1)
      go (ok _, t) g = g
      go (err e, t) g = elim (Bool-cases (k.is_invalid e)) [
        | inl bad ↦ rw bad tt
        | inr good ↦ rw good tt
      ]
      go (panic, t) g = tt
      go (timeout, t) g = tt

  -- What the three writes of a round keep is kept by the round.
  persist_pair-keeps :
      (P : k.World × CheckoutState → Type 0) (p : Pair)
      → ((c : Checkout) (t : k.World × CheckoutState)
          → P t
          → P (on_claim k p (k.checkout_owns c) t).1)
      → ((t : k.World × CheckoutState) → P t → P (on_claim k p k.persist_pvc t).1)
      → ((uid : String) (v : Pv) (t : k.World × CheckoutState)
          → volume_of p t.1 ≡ some v
          → P t
          → P (persist_volume k p (with_uid uid v) t).1)
      → (s : k.World × CheckoutState) → P s
      → Gives (λ _. P) Lost (persist_pair k p s)
  unfolding persist_pair
  persist_pair-keeps P p owns writes stores s h =
      Gives-bind (λ _. P) (λ _. P) Lost (on_claim k p (k.checkout_owns s.1.checkout)) _ s
        (Gives-imp (λ _. P) (λ _. P) P Lost _ (λ _ _ g. g) (λ _ _. tt)
          (Gives-always P (on_claim k p (k.checkout_owns s.1.checkout) s) (owns s.1.checkout s h)))
        λ _ t ht.
          Gives-bind (λ _. P) (λ _. P) Lost (catch (on_claim k p k.persist_pvc) (claim_failed k p))
            _ t (catch_claim-keeps P p writes t ht)
            λ _ u hu. elim (Option-cases (volume_of p u.1)) [
              | inl missing ↦ rw missing tt
              | inr (v, e) ↦ rw e (
                  Gives-bind (λ ref x. (v.spec.claim_ref ≡ some ref) × (x ≡ u)) (λ _. P) Lost
                    (deref v.spec.claim_ref)
                    (λ _. persist_volume k p (with_uid (claim_of p u.1).metadata.uid v)) u
                    (deref-Gives k st laws p "" v.spec.claim_ref u)
                    λ ref x r.
                      subst
                        (λ y.
                          Gives (λ _. P) Lost
                            (persist_volume k p (with_uid (claim_of p u.1).metadata.uid v) y))
                        (sym r.1)
                        (Gives-imp (λ _. P) (λ _. P) P Lost _ (λ _ _ g. g) (λ _ _. tt)
                          (Gives-always P
                            (persist_volume k p (with_uid (claim_of p u.1).metadata.uid v) u)
                            (stores (claim_of p u.1).metadata.uid v u e hu))))
            ]

  module _ (others : OtherLaws k st) where
    -- The locked pair has its key and the name of its volume, and the final pair is the same.
    pub record LockedRound (cs : CheckoutState) (name : String) (t : k.World × CheckoutState)
        : Type 0 where
      pub key : t.1.locked_claim.key ≡ cs.locked_claim.key
      pub volume_name : (u : Pv) → t.1.locked_volume ≡ some u → u.name ≡ name
      pub same_claim : t.1.claim ≡ cs.claim
      pub same_volume : t.1.volume ≡ cs.volume
      pub same_checkout : t.1.checkout ≡ cs.checkout

    pub persist_locked-LockedRound :
        (s : k.World × CheckoutState) (name : String)
        → ((u : Pv) → s.1.locked_volume ≡ some u → u.name ≡ name)
        → Gives (λ _. LockedRound s.1 name) Lost (persist_pair k locked s)
    persist_locked-LockedRound s name h =
        persist_pair-keeps (LockedRound s.1 name) locked
          (λ c t g. record {
            key = others.checkout_owns-key c (t.0, t.1.locked_claim) ∙ g.key;
            volume_name = g.volume_name;
            same_claim = g.same_claim;
            same_volume = g.same_volume;
            same_checkout = g.same_checkout;
          })
          (λ t g. record {
            key = others.persist_pvc-key (t.0, t.1.locked_claim) ∙ g.key;
            volume_name = g.volume_name;
            same_claim = g.same_claim;
            same_volume = g.same_volume;
            same_checkout = g.same_checkout;
          })
          (λ uid v t e g. record {
            key = g.key;
            volume_name = λ u e'.
                sym (ap (λ x. x.name) (some-eq e'))
                ∙ others.persist_pv-name (t.0, with_uid uid v)
                ∙ g.volume_name v e;
            same_claim = g.same_claim;
            same_volume = g.same_volume;
            same_checkout = g.same_checkout;
          })
          s
          (record {
            key = refl;
            volume_name = h;
            same_claim = refl;
            same_volume = refl;
            same_checkout = refl;
          })

    -- The locked pair is on the server, and the final one is another pair.
    pub record Beside (uid : String) (t : k.World × CheckoutState) : Type 0 where
      pub stored : IsStored k st locked uid t
      pub other_key : ¬ (t.1.claim.key ≡ t.1.locked_claim.key)
      pub other_name : (u : Pv) → t.1.volume ≡ some u → ¬ (u.name ≡ stored.v.name)

    -- A write of the final claim, and of the final volume.
    Beside-claim :
        (uid : String) (t : k.World × CheckoutState) (w : k.World) (d : Pvc)
        → Beside uid t
        → d.key ≡ t.1.claim.key
        → st.HasClaim w t.1.locked_claim
        → ((v : Pv) → st.HasVolume t.0 v → st.HasVolume w v)
        → Beside uid (w, put_claim final d t.1)
    Beside-claim uid t w d h key has keeps = record {
      stored = record {
        v = h.stored.v;
        has_claim = has;
        controls = h.stored.controls;
        is_volume = h.stored.is_volume;
        has_volume = keeps h.stored.v h.stored.has_volume;
        named = h.stored.named;
        refers = h.stored.refers;
      };
      other_key = λ e. h.other_key (sym key ∙ e);
      other_name = h.other_name;
    }

    Beside-volume :
        (uid id : String) (u : Pv) (t : k.World × CheckoutState)
        → t.1.volume ≡ some u
        → Beside uid t
        → Beside uid (persist_volume k final (with_uid id u) t).1
    Beside-volume uid id u t e h = record {
      stored = record {
        v = h.stored.v;
        has_claim =
            laws.persist_pv-HasClaim (t.0, with_uid id u) t.1.locked_claim h.stored.has_claim;
        controls = h.stored.controls;
        is_volume = h.stored.is_volume;
        has_volume =
            others.persist_pv-keeps_volume (t.0, with_uid id u) h.stored.v (h.other_name u e)
              h.stored.has_volume;
        named = h.stored.named;
        refers = h.stored.refers;
      };
      other_key = h.other_key;
      other_name = λ x e' same. h.other_name u e (
          sym (others.persist_pv-name (t.0, with_uid id u)) ∙ ap (λ y. y.name) (some-eq e') ∙ same);
    }

    pub persist_final-Beside :
        (uid : String) (s : k.World × CheckoutState)
        → Beside uid s
        → Gives (λ _. Beside uid) Lost (persist_pair k final s)
    persist_final-Beside uid =
        persist_pair-keeps (Beside uid) final
          (λ c t g.
            Beside-claim uid t (k.checkout_owns c (t.0, t.1.claim)).1.0
              (k.checkout_owns c (t.0, t.1.claim)).1.1 g
              (others.checkout_owns-key c (t.0, t.1.claim))
              (others.checkout_owns-keeps_claim c (t.0, t.1.claim) t.1.locked_claim
                g.stored.has_claim)
              (others.checkout_owns-keeps_volume c (t.0, t.1.claim)))
          (λ t g.
            Beside-claim uid t (k.persist_pvc (t.0, t.1.claim)).1.0
              (k.persist_pvc (t.0, t.1.claim)).1.1 g (others.persist_pvc-key (t.0, t.1.claim))
              (others.persist_pvc-keeps_claim (t.0, t.1.claim) t.1.locked_claim g.other_key
                g.stored.has_claim)
              (others.persist_pvc-keeps_volume (t.0, t.1.claim)))
          (λ id u t e g. Beside-volume uid id u t e g)
