-- ===== src/CheckoutState/Retry.antt =====
-- What ConfigureCheckoutState (pkg/controller/app/checkout_state.go) does to what it has set up, as
-- in a reconcile that runs again after an error.
use pvpool.Prelude.{◌≡◌, refl, sym, ap, ◌∙◌, true, false, Option, none, some, Bool-cases, inl, inr}
use pvpool.Api.Core.{Pvc, Pv}
use pvpool.Api.State.{CheckoutState}
use pvpool.Kube.{Kube}
use pvpool.Kube.Laws.{AnnotateLaws, CopyLaws}
use pvpool.Replica.Phase.{is_bound}
use pvpool.CheckoutState.Configure.{
  remember_policy, copy_volume, point_at, lock_volume, new_volume, configure_from, configure_locked,
  configure_checkout_state,
}
use pvpool.CheckoutState.Binding.{lookup-remember_policy}

module _ (k : Kube) (annotates : AnnotateLaws k) (copies : CopyLaws k) where
  -- A locked volume that remembers its policy is left alone by remember_policy.
  remember_policy-lock_volume :
      (claim : Pvc) (v : Pv)
      → remember_policy k (lock_volume k claim (remember_policy k v))
        ≡ lock_volume k claim (remember_policy k v)
  unfolding lock_volume remember_policy
  remember_policy-lock_volume claim v = rw (lookup-remember_policy k annotates v) refl

  abbrev copied : CheckoutState → Pv → Pv
  copied cs lv =
      copy_volume k cs.checkout.spec.access_modes cs.claim (remember_policy k lv)
        (new_volume k lv cs.volume)

  abbrev kept : CheckoutState → Pv → Pv
  kept cs lv = lock_volume k cs.locked_claim (remember_policy k lv)

  copied_again :
      (cs : CheckoutState) (lv : Pv)
      → copy_volume k cs.checkout.spec.access_modes cs.claim (kept cs lv) (copied cs lv)
        ≡ copied cs lv
  unfolding copy_volume lock_volume
  copied_again cs lv =
      ap (λ m. record (copied cs lv) { metadata = m })
        (copies.copy_idem (new_volume k lv cs.volume).metadata (remember_policy k lv).metadata)

  configure_from_idem :
      (cs : CheckoutState) (lv : Pv)
      → configure_from k (kept cs lv) (configure_from k lv cs) ≡ configure_from k lv cs
  unfolding configure_from point_at lock_volume copy_volume remember_policy
  configure_from_idem cs lv =
      rw (remember_policy-lock_volume cs.locked_claim lv, copied_again cs lv) refl

  configure_locked_idem :
      (o : Option Pv) (cs : CheckoutState)
      → cs.locked_volume ≡ o
      → let out = configure_locked k o cs in configure_locked k out.locked_volume out ≡ out
  unfolding configure_from
  configure_locked_idem none cs e = ap (λ o. configure_locked k o cs) e
  configure_locked_idem (some lv) cs e = configure_from_idem cs lv

  phase-configure_locked :
      (o : Option Pv) (cs : CheckoutState) → (configure_locked k o cs).claim.phase ≡ cs.claim.phase
  unfolding configure_from
  phase-configure_locked none cs = refl
  phase-configure_locked (some lv) cs = refl

  configure_free :
      (cs : CheckoutState)
      → is_bound cs.claim.phase ≡ false
      → configure_checkout_state k cs ≡ configure_locked k cs.locked_volume cs
  unfolding configure_checkout_state
  configure_free cs h = rw h refl

  configure_bound :
      (cs : CheckoutState) → is_bound cs.claim.phase ≡ true → configure_checkout_state k cs ≡ cs
  unfolding configure_checkout_state
  configure_bound cs h = rw h refl

  -- Where an annotation that was set is read back and copying labels and annotations twice is the
  -- same as once, ConfigureCheckoutState changes nothing on its own result: it picks no other name
  -- for the new volume and keeps the reclaim policy that it remembered.
  pub configure_checkout_state_idem :
      (cs : CheckoutState)
      → configure_checkout_state k (configure_checkout_state k cs) ≡ configure_checkout_state k cs
  configure_checkout_state_idem cs = elim (Bool-cases (is_bound cs.claim.phase)) [
    | inl bound ↦ ap (configure_checkout_state k) (configure_bound cs bound)
    | inr free ↦
        let out = configure_locked k cs.locked_volume cs in
        ap (configure_checkout_state k) (configure_free cs free)
        ∙ configure_free out (ap is_bound (phase-configure_locked cs.locked_volume cs) ∙ free)
        ∙ configure_locked_idem cs.locked_volume cs refl
        ∙ sym (configure_free cs free)
  ]
