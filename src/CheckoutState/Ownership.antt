-- ===== src/CheckoutState/Ownership.antt =====
-- Whose volumes Load of CheckoutState (pkg/controller/app/checkout_state.go) takes over.
use pvpool.Prelude.{
  ◌≡◌, refl, subst, Bool, true, false, ◌&&◌, Option, some, Bool-cases, inl, inr, if◌then◌else◌,
}
use pvpool.Exec.{Outcome, ok, err, panic, timeout, continue, modify, pure}
use pvpool.Exec.Rules.{bind_cases}
use pvpool.Api.Core.{Pv, Pvc}
use pvpool.Api.State.{CheckoutState}
use pvpool.Kube.{Kube}
use pvpool.CheckoutState.Pairs.{
  Pair, locked, final, claim_of, volume_of, put_claim, put_volume, on_claim,
}
use pvpool.CheckoutState.Load.{is_controller, refers_to, adopt_volume, load_pair}

pub volume_of-put_claim :
    (p : Pair) (c : Pvc) (cs : CheckoutState) → volume_of p (put_claim p c cs) ≡ volume_of p cs
volume_of-put_claim locked c cs = refl
volume_of-put_claim final c cs = refl

module _ (k : Kube) where
  -- The pair's volume is the one from before, or one that refers to the pair's claim, which the
  -- checkout controls.
  pub data Taken (p : Pair) (before : Option Pv) (cs : CheckoutState) : Type 0 where
    untouched : volume_of p cs ≡ before → Taken p before cs
    adopted :
        (v : Pv)
        → volume_of p cs ≡ some v
        → refers_to (claim_of p cs).metadata.uid v.spec.claim_ref ≡ true
        → is_controller cs.checkout.metadata.uid (k.controller_of (claim_of p cs).metadata) ≡ true
        → Taken p before cs

  abbrev Run : Type 0
  Run = Outcome k.Error (Unit {0}) × (k.World × CheckoutState)

  abbrev TakenIfOk : Pair → Option Pv → Run → Type 0
  TakenIfOk p before (ok _, s) = Taken p before s.1
  TakenIfOk p before _ = Unit {0}

  put_volume-Taken :
      (p : Pair) (before : Option Pv) (v : Pv) (cs : CheckoutState)
      → refers_to (claim_of p cs).metadata.uid v.spec.claim_ref ≡ true
      → is_controller cs.checkout.metadata.uid (k.controller_of (claim_of p cs).metadata) ≡ true
      → Taken p before (put_volume p (some v) cs)
  put_volume-Taken locked before v cs h own = adopted v refl h own
  put_volume-Taken final before v cs h own = adopted v refl h own

  -- The volume that was looked up, and whether it was found.
  looked_up-TakenIfOk :
      (p : Pair) (s : k.World × CheckoutState) (v : Pv) (found : Bool)
      → is_controller s.1.checkout.metadata.uid (k.controller_of (claim_of p s.1).metadata) ≡ true
      → TakenIfOk p (volume_of p s.1) (
          (if found && refers_to (claim_of p s.1).metadata.uid v.spec.claim_ref
              then modify (λ t. (t.0, put_volume p (some v) t.1))
              else pure tt)
            s)
  looked_up-TakenIfOk p s v false own = untouched refl
  looked_up-TakenIfOk p s v true own =
      go (refers_to (claim_of p s.1).metadata.uid v.spec.claim_ref) refl
    where
      go :
          (b : Bool)
          → refers_to (claim_of p s.1).metadata.uid v.spec.claim_ref ≡ b
          → TakenIfOk p
              (volume_of p s.1)
              ((if b then modify (λ t. (t.0, put_volume p (some v) t.1)) else pure tt) s)
      go true e = put_volume-Taken p (volume_of p s.1) v s.1 e own
      go false e = untouched refl

  adopt_volume-TakenIfOk :
      (p : Pair) (s : k.World × CheckoutState)
      → is_controller s.1.checkout.metadata.uid (k.controller_of (claim_of p s.1).metadata) ≡ true
      → TakenIfOk p (volume_of p s.1) (adopt_volume k p s)
  adopt_volume-TakenIfOk p s own = go (k.load_pv (s.0, k.new_pv (claim_of p s.1).spec.volume_name))
    where
      go :
          (d : Outcome k.Error Bool × (k.World × Pv))
          → TakenIfOk p (volume_of p s.1) (
              continue {S = k.World × CheckoutState} d.0
                (λ found.
                  if found && refers_to (claim_of p s.1).metadata.uid d.1.1.spec.claim_ref
                  then modify (λ t. (t.0, put_volume p (some d.1.1) t.1))
                  else pure tt)
                (d.1.0, s.1))
      go (ok found, t) = looked_up-TakenIfOk p (t.0, s.1) t.1 found own
      go (err e, t) = tt
      go (panic, t) = tt
      go (timeout, t) = tt

  -- A round of Load that succeeds leaves the pair's volume as it was, or takes a volume over that
  -- refers to the pair's claim while the checkout controls that claim: a claim of the same name
  -- that another object made gives the checkout nothing.
  pub load_pair-Taken :
      (p : Pair) (s s' : k.World × CheckoutState)
      → load_pair k p s ≡ (ok tt, s')
      → Taken p (volume_of p s.1) s'.1
  unfolding load_pair
  load_pair-Taken p s s' h = subst (TakenIfOk p (volume_of p s.1)) h (
      bind_cases (TakenIfOk p (volume_of p s.1)) (on_claim k p k.load_pvc) _ s
        (λ found s1 e.
          let same : volume_of p s1.1 ≡ volume_of p s.1 =
            subst
              (λ (q : Outcome k.Error Bool × (k.World × CheckoutState)).
                volume_of p q.1.1 ≡ volume_of p s.1)
              e (volume_of-put_claim p (k.load_pvc (s.0, claim_of p s.1)).1.1 s.1) in
          elim (Bool-cases found) [
            | inr gone ↦ rw gone (untouched same)
            | inl there ↦
                elim (Bool-cases (
                  is_controller s1.1.checkout.metadata.uid
                    (k.controller_of (claim_of p s1.1).metadata))) [
                      | inr other ↦ rw (there, other) tt
                      | inl own ↦
                          rw (there, own)
                            (subst (λ o. TakenIfOk p o (adopt_volume k p s1)) same
                              (adopt_volume-TakenIfOk p s1 own))
                    ]
          ])
        (λ _ _ _. tt) (λ _ _. tt) (λ _ _. tt))
