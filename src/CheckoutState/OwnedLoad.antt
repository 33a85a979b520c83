-- ===== src/CheckoutState/OwnedLoad.antt =====
-- Which claims are left to a checkout after Load (pkg/controller/app/checkout_state.go).
use pvpool.Prelude.{
  ◌≡◌, refl, String, Bool, true, false, Option, some, if◌then◌else◌, ◌&&◌, Bool-cases, inl, inr,
}
use pvpool.Exec.{Outcome, ok, err, panic, timeout, continue, pure, modify}
use pvpool.Exec.Rules.{Gives, Gives-bind}
use pvpool.Api.Core.{Pvc, Pv}
use pvpool.Api.State.{CheckoutState}
use pvpool.Kube.{Kube}
use pvpool.Kube.Frame.{Frame, ReadLaws, ClaimLaws, PoolLaws, CheckoutLaws}
use pvpool.CheckoutState.Pairs.{Pair, locked, final, claim_of, put_claim, put_volume, on_claim}
use pvpool.CheckoutState.Load.{is_controller, adopt_volume, load_pair, refers_to}

abbrev pub other : Pair → Pair
other locked = final
other final = locked

module _ (k : Kube) (f : Frame k) where
  -- A safe world and a checkout, and what holds of a claim and of the other one.
  pub record Holds (p : Pair) (P Q : Pvc → Type 0) (s : k.World × CheckoutState) : Type 0 where
    pub safe : f.Safe s.0
    pub is_checkout : f.IsCheckout s.1.checkout.metadata.uid
    pub this : P (claim_of p s.1)
    pub that : Q (claim_of (other p) s.1)

  abbrev pub Mine : Pvc → Type 0
  Mine c = f.Own c.key

  abbrev pub SafeHere : k.World × CheckoutState → Type 0
  SafeHere s = f.Safe s.0

  pub Holds-put_claim :
      (p : Pair) (P P' Q : Pvc → Type 0) (s : k.World × CheckoutState) (t : k.World × Pvc)
      → f.Safe t.0
      → P' t.1
      → Holds p P Q s
      → Holds p P' Q (t.0, put_claim p t.1 s.1)
  Holds-put_claim locked P P' Q s t safe c h = record {
    safe = safe;
    is_checkout = h.is_checkout;
    this = c;
    that = h.that;
  }
  Holds-put_claim final P P' Q s t safe c h = record {
    safe = safe;
    is_checkout = h.is_checkout;
    this = c;
    that = h.that;
  }

  -- A volume does not matter.
  pub Holds-put_volume :
      (p q : Pair) (P Q : Pvc → Type 0) (s : k.World × CheckoutState) (w : k.World) (v : Option Pv)
      → f.Safe w
      → Holds p P Q s
      → Holds p P Q (w, put_volume q v s.1)
  Holds-put_volume locked locked P Q s w v safe h = record {
    safe = safe;
    is_checkout = h.is_checkout;
    this = h.this;
    that = h.that;
  }
  Holds-put_volume locked final P Q s w v safe h = record {
    safe = safe;
    is_checkout = h.is_checkout;
    this = h.this;
    that = h.that;
  }
  Holds-put_volume final locked P Q s w v safe h = record {
    safe = safe;
    is_checkout = h.is_checkout;
    this = h.this;
    that = h.that;
  }
  Holds-put_volume final final P Q s w v safe h = record {
    safe = safe;
    is_checkout = h.is_checkout;
    this = h.this;
    that = h.that;
  }

  pub Holds-world :
      (p : Pair) (P Q : Pvc → Type 0) (s : k.World × CheckoutState) (w : k.World)
      → f.Safe w
      → Holds p P Q s
      → Holds p P Q (w, s.1)
  Holds-world p P Q s w safe h = record {
    safe = safe;
    is_checkout = h.is_checkout;
    this = h.this;
    that = h.that;
  }

  -- What the answer to a claim's Load says about who may write the claim.
  abbrev pub Answered : Bool → Pvc → Type 0
  Answered true c =
      (uid : String)
      → f.IsCheckout uid
      → is_controller uid (k.controller_of c.metadata) ≡ true
      → f.Own c.key
  Answered false c = f.Own c.key

module _ (k : Kube) (f : Frame k) (reads : ReadLaws k f) (claims : ClaimLaws k f)
    (pools : PoolLaws k f) (checkouts : CheckoutLaws k f) where
  load_pvc-Answered :
      (p : Pair) (P Q : Pvc → Type 0) (s : k.World × CheckoutState)
      → Holds k f p P Q s
      → Gives
          (λ found. Holds k f p (Answered k f found) Q)
          (SafeHere k f)
          (on_claim k p k.load_pvc s)
  load_pvc-Answered p P Q s h =
      go (k.load_pvc (s.0, claim_of p s.1)) refl (claims.load_pvc-Safe (s.0, claim_of p s.1) h.safe)
    where
      go :
          (d : Outcome k.Error Bool × (k.World × Pvc))
          → k.load_pvc (s.0, claim_of p s.1) ≡ d
          → f.Safe d.1.0
          → Gives
              (λ found. Holds k f p (Answered k f found) Q)
              (SafeHere k f)
              (d.0, (d.1.0, put_claim p d.1.1 s.1))
      go (ok true, t) e safe =
          Holds-put_claim k f p P (Answered k f true) Q s t safe
            (λ uid is own. checkouts.checkout_claim-Own uid (s.0, claim_of p s.1) t h.safe is e own)
            h
      go (ok false, t) e safe =
          Holds-put_claim k f p P (Answered k f false) Q s t safe
            (checkouts.absent_claim-Own (s.0, claim_of p s.1) t h.safe e) h
      go (err x, t) e safe = safe
      go (panic, t) e safe = safe
      go (timeout, t) e safe = safe

  adopt_volume-Mine :
      (p : Pair) (Q : Pvc → Type 0) (s : k.World × CheckoutState)
      → Holds k f p (Mine k f) Q s
      → Gives (λ _. Holds k f p (Mine k f) Q) (SafeHere k f) (adopt_volume k p s)
  adopt_volume-Mine p Q s h =
      go (k.load_pv (s.0, k.new_pv (claim_of p s.1).spec.volume_name))
        (reads.load_pv-Safe (s.0, k.new_pv (claim_of p s.1).spec.volume_name) h.safe)
    where
      go :
          (d : Outcome k.Error Bool × (k.World × Pv))
          → f.Safe d.1.0
          → Gives
              (λ _. Holds k f p (Mine k f) Q)
              (SafeHere k f)
              (continue {S = k.World × CheckoutState} d.0
                (λ found.
                  if found && refers_to (claim_of p s.1).metadata.uid d.1.1.spec.claim_ref
                  then modify (λ t. (t.0, put_volume p (some d.1.1) t.1))
                  else pure tt)
                (d.1.0, s.1))
      go (ok found, t) safe =
          elim (Bool-cases (found && refers_to (claim_of p s.1).metadata.uid t.1.spec.claim_ref)) [
            | inl takes ↦ rw takes (Holds-put_volume k f p p (Mine k f) Q s t.0 (some t.1) safe h)
            | inr leaves ↦ rw leaves (Holds-world k f p (Mine k f) Q s t.0 safe h)
          ]
      go (err x, t) safe = safe
      go (panic, t) safe = safe
      go (timeout, t) safe = safe

  -- The rest of the round, from the answer.
  pub load_pair-Mine :
      (p : Pair) (P Q : Pvc → Type 0) (s : k.World × CheckoutState)
      → Holds k f p P Q s
      → Gives (λ _. Holds k f p (Mine k f) Q) (SafeHere k f) (load_pair k p s)
  unfolding load_pair
  load_pair-Mine p P Q s h =
      Gives-bind (λ found. Holds k f p (Answered k f found) Q) (λ _. Holds k f p (Mine k f) Q)
        (SafeHere k f) (on_claim k p k.load_pvc) _ s (load_pvc-Answered p P Q s h)
        elim [
          | false ↦ λ t ht. record {
            safe = ht.safe;
            is_checkout = ht.is_checkout;
            this = ht.this;
            that = ht.that;
          }
          | true ↦ λ t ht.
              elim (Bool-cases (
                is_controller t.1.checkout.metadata.uid
                  (k.controller_of (claim_of p t.1).metadata))) [
                    | inr alien ↦ rw alien ht.safe
                    | inl own ↦ rw own (
                        adopt_volume-Mine p Q t (record {
                          safe = ht.safe;
                          is_checkout = ht.is_checkout;
                          this = ht.this t.1.checkout.metadata.uid ht.is_checkout own;
                          that = ht.that;
                        }))
                  ]
        ]
