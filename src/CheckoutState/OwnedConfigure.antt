-- ===== src/CheckoutState/OwnedConfigure.antt =====
-- Which volumes ConfigureCheckoutState (pkg/controller/app/checkout_state.go) names.
use pvpool.Prelude.{
  ◌≡◌, refl, sym, subst, String, Option, none, some, Bool-cases, inl, inr, is_some, lookup,
}
use pvpool.Api.Core.{Pv}
use pvpool.Api.State.{CheckoutState}
use pvpool.Kube.{Kube}
use pvpool.Kube.Frame.{Frame, ReadLaws, ClaimLaws, CheckoutLaws, VolumeLaws}
use pvpool.Replica.Phase.{is_bound}
use pvpool.CheckoutState.Configure.{
  reclaim_key, remember_policy, copy_volume, lock_volume, new_volume, configure_from,
  configure_locked, configure_checkout_state,
}
use pvpool.CheckoutState.OwnedPick.{configure_checkout_state-BothMine}
use pvpool.CheckoutState.OwnedPersist.{MineIf, MineIf-some, VolumesMine, AllMine}

module _ (k : Kube) (f : Frame k) (OwnVolume : String → Type 0) (reads : ReadLaws k f)
    (claims : ClaimLaws k f) (checkouts : CheckoutLaws k f)
    (volumes : VolumeLaws k f OwnVolume) where
  remember_policy-name : (v : Pv) → (remember_policy k v).name ≡ v.name
  unfolding remember_policy
  remember_policy-name v = elim (Bool-cases (is_some (lookup reclaim_key v.metadata.annotations))) [
    | inl there ↦ rw there refl
    | inr absent ↦ rw absent refl
  ]

  configure_locked-VolumesMine :
      (derived : (u : Pv) → OwnVolume u.name → OwnVolume (new_volume k u none).name) (o : Option Pv)
      (cs : CheckoutState)
      → MineIf OwnVolume o
      → VolumesMine OwnVolume cs
      → VolumesMine OwnVolume (configure_locked k o cs)
  unfolding configure_from copy_volume lock_volume
  configure_locked-VolumesMine derived none cs own h = h
  configure_locked-VolumesMine derived (some lv) cs own h =
      (MineIf-some OwnVolume _ (kept (own lv refl)), MineIf-some OwnVolume _ (named cs.volume h.1))
    where
      kept : OwnVolume lv.name → OwnVolume (remember_policy k lv).name
      kept n = subst OwnVolume (sym (remember_policy-name lv)) n

      named : (o : Option Pv) → MineIf OwnVolume o → OwnVolume (new_volume k lv o).name
      named none m = derived lv (own lv refl)
      named (some v) m = m v refl

  -- The volumes keep their names, and a new one has a name that is made from the locked one's uid.
  pub configure_checkout_state-AllMine :
      (derived : (u : Pv) → OwnVolume u.name → OwnVolume (new_volume k u none).name)
      (s : k.World × CheckoutState)
      → AllMine k f OwnVolume reads claims checkouts volumes s
      → AllMine k f OwnVolume reads claims checkouts volumes (s.0, configure_checkout_state k s.1)
  unfolding configure_checkout_state
  configure_checkout_state-AllMine derived s h = (
    configure_checkout_state-BothMine k f s h.0,
    elim (Bool-cases (is_bound s.1.claim.phase)) [
      | inl bound ↦ rw bound h.1
      | inr free ↦ rw free (configure_locked-VolumesMine derived s.1.locked_volume s.1 h.1.0 h.1)
    ],
  )
