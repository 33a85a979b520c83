-- ===== src/CheckoutState/Taken.antt =====
-- Load of CheckoutState (pkg/controller/app/checkout_state.go) while another checkout has locked a
-- volume.
use pvpool.Prelude.{
  ◌≡◌, refl, sym, subst, ◌∙◌, String, Bool, true, false, ◌&&◌, arith, some, if◌then◌else◌,
  Bool-cases, inl, inr,
}
use pvpool.Exec.{Outcome, ok, err, panic, timeout, modify, pure, continue}
use pvpool.Exec.Rules.{Gives, Gives-bind}
use pvpool.Api.Core.{Pvc, Pv}
use pvpool.Api.State.{CheckoutState}
use pvpool.Kube.{Kube}
use pvpool.Kube.Frame.{Frame, ReadLaws, ClaimLaws}
use pvpool.Kube.Store.{Store}
use pvpool.Kube.Lock.{Uids, lock_frame, OtherVolume, LockLaws}
use pvpool.Replica.Taken.{refers-eq}
use pvpool.PoolState.Taken.{controller-eq}
use pvpool.CheckoutState.Pairs.{Pair, locked, final, claim_of, put_claim, put_volume, on_claim}
use pvpool.CheckoutState.Load.{is_controller, refers_to, adopt_volume, load_pair}
use pvpool.CheckoutState.OwnedPersist.{VolumesMine, VolumesMine-put_volume}

module _ (k : Kube) (st : Store k) (ids : Uids k) (owner : String) (c : Pvc) (v : Pv) where
  abbrev lf : Frame k
  lf = lock_frame k st ids owner c v

  abbrev Other : String → Type 0
  Other = OtherVolume k st ids owner c v

  -- Another checkout, without the volume.
  abbrev pub Away : k.World × CheckoutState → Type 0
  Away s = lf.Safe s.0 × ¬ (s.1.checkout.metadata.uid ≡ owner) × VolumesMine Other s.1

  abbrev Known : Pvc → Type 0
  Known d = d.metadata.uid ≡ c.metadata.uid → d ≡ c

  Away-put_claim :
      (p : Pair) (d : Pvc) (w : k.World) (cs : CheckoutState)
      → lf.Safe w
      → ¬ (cs.checkout.metadata.uid ≡ owner)
      → VolumesMine Other cs
      → Away (w, put_claim p d cs) × (claim_of p (put_claim p d cs) ≡ d)
  Away-put_claim locked d w cs safe apart h = ((safe, apart, h), refl)
  Away-put_claim final d w cs safe apart h = ((safe, apart, h), refl)

  pub Away-put_volume :
      (p : Pair) (u : Pv) (w : k.World) (s : k.World × CheckoutState)
      → lf.Safe w
      → Other u.name
      → Away s
      → Away (w, put_volume p (some u) s.1)
  Away-put_volume locked u w s safe other h =
      (safe, h.1, VolumesMine-put_volume Other locked u s.1 other h.2)
  Away-put_volume final u w s safe other h =
      (safe, h.1, VolumesMine-put_volume Other final u s.1 other h.2)

  module _ (lock : LockLaws k st ids owner c v) (reads : ReadLaws k lf) (claims : ClaimLaws k lf)
      (controls : is_controller owner (k.controller_of c.metadata) ≡ true)
      (refers : refers_to c.metadata.uid v.spec.claim_ref ≡ true) where
    abbrev Lost : k.World × CheckoutState → Type 0
    Lost _ = Unit {0}

    load_pvc-Known :
        (p : Pair) (s : k.World × CheckoutState)
        → Away s
        → Gives
            (λ found t. Away t × (found ≡ true → Known (claim_of p t.1)))
            Lost
            (on_claim k p k.load_pvc s)
    load_pvc-Known p s h =
        go (k.load_pvc (s.0, claim_of p s.1)) refl (claims.load_pvc-Safe (s.0, claim_of p s.1) h.0)
      where
        go :
            (d : Outcome k.Error Bool × (k.World × Pvc))
            → k.load_pvc (s.0, claim_of p s.1) ≡ d
            → lf.Safe d.1.0
            → Gives
                (λ found t. Away t × (found ≡ true → Known (claim_of p t.1)))
                Lost
                (d.0, (d.1.0, put_claim p d.1.1 s.1))
        go (ok true, t) e safe =
            let (away, same) = Away-put_claim p t.1 t.0 s.1 safe h.1 h.2 in
            (away, λ _. subst Known (sym same) (lock.load_pvc-same (s.0, claim_of p s.1) t h.0 e))
        go (ok false, t) e safe = ((Away-put_claim p t.1 t.0 s.1 safe h.1 h.2).0, λ no. absurd (cc))
        go (err x, t) e safe = tt
        go (panic, t) e safe = tt
        go (timeout, t) e safe = tt

    not_adopted :
        (uid : String) (d : Pvc) (u : Pv)
        → ¬ (uid ≡ owner)
        → Known d
        → is_controller uid (k.controller_of d.metadata) ≡ true
        → refers_to d.metadata.uid u.spec.claim_ref ≡ true
        → ¬ (u ≡ v)
    not_adopted uid d u apart known own back same =
        let is_c : d ≡ c = known (
          refers-eq d.metadata.uid c.metadata.uid v.spec.claim_ref
            (subst (λ y. refers_to d.metadata.uid y.spec.claim_ref ≡ true) same back) refers) in
        apart (
          controller-eq uid owner (k.controller_of c.metadata)
            (subst (λ y. is_controller uid (k.controller_of y.metadata) ≡ true) is_c own) controls)

    -- The volume refers to a claim that this checkout does not control.
    adopt_volume-Away :
        (p : Pair) (s : k.World × CheckoutState)
        → Away s
        → Known (claim_of p s.1)
        → is_controller s.1.checkout.metadata.uid (k.controller_of (claim_of p s.1).metadata) ≡ true
        → Gives (λ _. Away) Lost (adopt_volume k p s)
    adopt_volume-Away p s h known own =
        go (k.load_pv (s.0, asked)) (reads.load_pv-Safe (s.0, asked) h.0)
          (λ name. lock.load_pv-same (s.0, asked) h.0 name) (lock.load_pv-name (s.0, asked))
      where
        asked : Pv
        asked = k.new_pv (claim_of p s.1).spec.volume_name

        go :
            (d : Outcome k.Error Bool × (k.World × Pv))
            → lf.Safe d.1.0
            → (asked.name ≡ v.name
                → Gives (λ found t. (found ≡ true) × (t.1 ≡ v)) (λ _. Unit {0}) d)
            → d.1.1.name ≡ asked.name
            → Gives
                (λ _. Away)
                Lost
                (continue {S = k.World × CheckoutState} d.0
                  (λ found.
                    if found && refers_to (claim_of p s.1).metadata.uid d.1.1.spec.claim_ref
                    then modify (λ t. (t.0, put_volume p (some d.1.1) t.1))
                    else pure tt)
                  (d.1.0, s.1))
        go (ok found, t) safe is name =
            elim (Bool-cases
              (found && refers_to (claim_of p s.1).metadata.uid t.1.spec.claim_ref)) [
                | inr leaves ↦ rw leaves (safe, h.1, h.2)
                | inl takes ↦ rw takes (
                    Away-put_volume p t.1 t.0 s safe
                      (λ named.
                        not_adopted s.1.checkout.metadata.uid (claim_of p s.1) t.1 h.1 known own
                          (ground arith) (is (sym name ∙ named)).1)
                      h)
              ]
        go (err e, t) safe is name = tt
        go (panic, t) safe is name = tt
        go (timeout, t) safe is name = tt

    pub load_pair-Away :
        (p : Pair) (s : k.World × CheckoutState) → Away s → Gives (λ _. Away) Lost (load_pair k p s)
    unfolding load_pair
    load_pair-Away p s h =
        Gives-bind (λ found t. Away t × (found ≡ true → Known (claim_of p t.1))) (λ _. Away) Lost
          (on_claim k p k.load_pvc) _ s (load_pvc-Known p s h)
          λ found t ht. elim (Bool-cases found) [
            | inr gone ↦ rw gone ht.0
            | inl there ↦
                elim (Bool-cases (
                  is_controller t.1.checkout.metadata.uid
                    (k.controller_of (claim_of p t.1).metadata))) [
                      | inr alien ↦ rw (there, alien) tt
                      | inl own ↦ rw (there, own) (adopt_volume-Away p t ht.0 (ht.1 there) own)
                    ]
          ]
