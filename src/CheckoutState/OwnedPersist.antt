-- ===== src/CheckoutState/OwnedPersist.antt =====
-- Which claims and volumes Persist of CheckoutState (pkg/controller/app/checkout_state.go) writes.
use pvpool.Prelude.{
  ◌≡◌, refl, sym, subst, String, Bool, Option, none, some, Bool-cases, Option-cases, inl, inr,
}
use pvpool.Prelude.Members.{some-eq}
use pvpool.Exec.{Outcome, ok, err, panic, timeout, Exec, pure, catch}
use pvpool.Exec.Rules.{Keeps-bind, Keeps-catch}
use pvpool.Api.Core.{Pvc, Pv}
use pvpool.Api.State.{CheckoutState}
use pvpool.Kube.{Kube, background, default}
use pvpool.Kube.Frame.{Frame, Held, ReadLaws, ClaimLaws, CheckoutLaws, VolumeLaws}
use pvpool.Replica.Phase.{is_bound}
use pvpool.CheckoutState.Pairs.{
  Pair, locked, final, claim_of, put_claim, volume_of, put_volume, on_claim,
}
use pvpool.CheckoutState.Persist.{
  claim_failed, persist_volume, persist_pair, delete_locked_volume, release_locked, persist,
}
use pvpool.CheckoutState.OwnedLoad.{Mine, Holds-put_claim, Holds-put_volume, Holds-world}
use pvpool.CheckoutState.OwnedPick.{BothMine, BothMine-cond, of_pair, to_pair}

module _ (OwnVolume : String → Type 0) where
  -- A volume, if there is one, may be written.
  abbrev pub MineIf : Option Pv → Type 0
  MineIf o = (u : Pv) → o ≡ some u → OwnVolume u.name

  abbrev pub VolumesMine : CheckoutState → Type 0
  VolumesMine cs = MineIf cs.locked_volume × MineIf cs.volume

  pub MineIf-some : (v : Pv) → OwnVolume v.name → MineIf (some v)
  MineIf-some v own u e = subst (λ x. OwnVolume x.name) (some-eq e) own

  VolumesMine-put_claim :
      (p : Pair) (c : Pvc) (cs : CheckoutState) → VolumesMine cs → VolumesMine (put_claim p c cs)
  VolumesMine-put_claim locked c cs h = h
  VolumesMine-put_claim final c cs h = h

  pub VolumesMine-put_volume :
      (p : Pair) (v : Pv) (cs : CheckoutState)
      → OwnVolume v.name
      → VolumesMine cs
      → VolumesMine (put_volume p (some v) cs)
  VolumesMine-put_volume locked v cs own h = (MineIf-some v own, h.1)
  VolumesMine-put_volume final v cs own h = (h.0, MineIf-some v own)

  VolumesMine-volume_of : (p : Pair) (cs : CheckoutState) → VolumesMine cs → MineIf (volume_of p cs)
  VolumesMine-volume_of locked cs h = h.0
  VolumesMine-volume_of final cs h = h.1

module _ (k : Kube) (f : Frame k) (OwnVolume : String → Type 0) (reads : ReadLaws k f)
    (claims : ClaimLaws k f) (checkouts : CheckoutLaws k f)
    (volumes : VolumeLaws k f OwnVolume) where
  -- Both claims and both volumes may be written.
  abbrev pub AllMine : k.World × CheckoutState → Type 0
  AllMine s = BothMine k f s × VolumesMine OwnVolume s.1

  -- A call that harms nothing where its claim may be written, on the claim of a pair.
  on_claim-AllMine :
      {A : Type 0} (p : Pair) (m : Exec k.Error (k.World × Pvc) A)
      → ((s : k.World × Pvc) → Held k f s → Held k f (m s).1)
      → (s : k.World × CheckoutState) → AllMine s
      → AllMine (on_claim k p m s).1
  on_claim-AllMine p m call s h =
      let mine = to_pair k f p s h.0 in
      let after = call (s.0, claim_of p s.1) (mine.safe, mine.this) in
      (
        of_pair k f p _ (
            Holds-put_claim k f p (Mine k f) (Mine k f) (Mine k f) s (m (s.0, claim_of p s.1)).1
              after.0 after.1 mine),
        VolumesMine-put_claim OwnVolume p (m (s.0, claim_of p s.1)).1.1 s.1 h.1,
      )

  claim_failed-AllMine :
      (p : Pair) (e : k.Error) (s : k.World × CheckoutState)
      → AllMine s
      → AllMine (claim_failed k p e s).1
  claim_failed-AllMine p e s h = elim (Bool-cases (k.is_invalid e)) [
    | inl bad ↦ rw bad (BothMine-cond k f s s.0 _ h.0.safe refl refl refl h.0, h.1)
    | inr good ↦ rw good h
  ]

  catch-AllMine :
      (p : Pair) (s : k.World × CheckoutState)
      → AllMine s
      → AllMine (catch (on_claim k p k.persist_pvc) (claim_failed k p) s).1
  catch-AllMine p s h =
      Keeps-catch AllMine (on_claim k p k.persist_pvc) (claim_failed k p) s
        (on_claim-AllMine p k.persist_pvc claims.persist_pvc-Held s h) (claim_failed-AllMine p)

  persist_volume-AllMine :
      (p : Pair) (v : Pv) (s : k.World × CheckoutState)
      → OwnVolume v.name
      → AllMine s
      → AllMine (persist_volume k p v s).1
  persist_volume-AllMine p v s own h =
      let t = (k.persist_pv (s.0, v)).1 in
      (
        Holds-put_volume k f final p (Mine k f) (Mine k f) s t.0 (some t.1)
            (volumes.persist_pv-Safe (s.0, v) own h.0.safe) h.0,
        VolumesMine-put_volume OwnVolume p t.1 s.1
            (subst OwnVolume (sym (volumes.persist_pv-name (s.0, v))) own) h.1,
      )

  persist_pair-AllMine :
      (p : Pair) (s : k.World × CheckoutState) → AllMine s → AllMine (persist_pair k p s).1
  unfolding persist_pair
  persist_pair-AllMine p s h =
      Keeps-bind AllMine (on_claim k p (k.checkout_owns s.1.checkout)) _ s
        (on_claim-AllMine p (k.checkout_owns s.1.checkout)
          (checkouts.checkout_owns-Held s.1.checkout) s h)
        λ _ t ht.
          Keeps-bind AllMine (catch (on_claim k p k.persist_pvc) (claim_failed k p)) _ t
            (catch-AllMine p t ht)
            λ _ u hu. elim (Option-cases (volume_of p u.1)) [
              | inl missing ↦ rw missing (
                BothMine-cond k f u _ _ (reads.record_event-Safe _ u.0 hu.0.safe) refl refl refl
                    hu.0,
                hu.1,
              )
              | inr (v, e) ↦ elim (Option-cases v.spec.claim_ref) [
                | inl none_there ↦ rw (e, none_there) hu
                | inr (ref, e') ↦
                    rw (e, e')
                      (persist_volume-AllMine p _ u (VolumesMine-volume_of OwnVolume p u.1 hu.1 v e)
                        hu)
              ]
            ]

  delete_locked_volume-AllMine :
      (o : Option Pv) (s : k.World × CheckoutState)
      → MineIf OwnVolume o
      → AllMine s
      → AllMine (delete_locked_volume k o s).1
  delete_locked_volume-AllMine none s own h = h
  delete_locked_volume-AllMine (some v) s own h = go d.0 refl
    where
      d : Outcome k.Error Bool × (k.World × Pv)
      d = k.delete_pv background (s.0, v)

      safe : f.Safe d.1.0
      safe = volumes.delete_pv-Safe background (s.0, v) (own v refl) h.0.safe

      kept : AllMine (d.1.0, put_volume locked (some d.1.1) s.1)
      kept = (
        Holds-put_volume k f final locked (Mine k f) (Mine k f) s d.1.0 (some d.1.1) safe h.0,
        VolumesMine-put_volume OwnVolume locked d.1.1 s.1
            (subst OwnVolume (sym (volumes.delete_pv-name background (s.0, v))) (own v refl)) h.1,
      )

      dropped : AllMine (d.1.0, s.1)
      dropped = (Holds-world k f final (Mine k f) (Mine k f) s d.1.0 safe h.0, h.1)

      go : (res : Outcome k.Error Bool) → d.0 ≡ res → AllMine (delete_locked_volume k (some v) s).1
      go (ok b) e = rw (delete_locked_volume, e) kept
      go (err x) e = rw (delete_locked_volume, e) kept
      go panic e = rw (delete_locked_volume, e) dropped
      go timeout e = rw (delete_locked_volume, e) dropped

  release_locked-AllMine :
      (s : k.World × CheckoutState) → AllMine s → AllMine (release_locked k s).1
  unfolding release_locked
  release_locked-AllMine s h =
      Keeps-bind AllMine (delete_locked_volume k s.1.locked_volume) _ _
        (delete_locked_volume-AllMine s.1.locked_volume _ h.1.0
          (BothMine-cond k f s s.0 _ h.0.safe refl refl refl h.0, h.1))
        λ _ t ht.
          Keeps-bind AllMine (on_claim k locked (k.delete_pvc default)) (λ _. pure tt) t
            (on_claim-AllMine locked (k.delete_pvc default) (claims.delete_pvc-Held default) t ht)
            λ _ _ g. g

  pub persist-AllMine : (s : k.World × CheckoutState) → AllMine s → AllMine (persist k s).1
  unfolding persist
  persist-AllMine s h = elim (Bool-cases (is_bound s.1.claim.phase)) [
    | inl bound ↦ rw bound (release_locked-AllMine s h)
    | inr free ↦ rw free (
        Keeps-bind AllMine (persist_pair k locked) (λ _. persist_pair k final) s
          (persist_pair-AllMine locked s h) λ _. persist_pair-AllMine final)
  ]
