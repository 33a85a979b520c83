-- ===== src/CheckoutState/Binding.antt =====
-- What ConfigureCheckoutState sets up.
use pvpool.Prelude.{
  ◌≡◌, refl, sym, subst, false, Option, none, some, arith, lookup, text_at, String,
}
use pvpool.Api.Core.{Pv}
use pvpool.Api.State.{CheckoutState}
use pvpool.Kube.{Kube}
use pvpool.Kube.Laws.{AnnotateLaws}
use pvpool.Replica.Phase.{is_bound}
use pvpool.CheckoutState.Configure.{
  reclaim_key, retain, claim_reference, remember_policy, copy_volume, point_at, lock_volume,
  configure_from, configure_checkout_state, new_volume, configure_locked,
}

abbrev pub policy_or : String → Option String → String
policy_or own none = own
policy_or own (some p) = p

-- The policy that the volume had in the pool: what the annotation says, or else its own.
abbrev pub original_policy : Pv → String
original_policy v = policy_or v.spec.reclaim_policy (lookup reclaim_key v.metadata.annotations)

module _ (k : Kube) where
  -- What ConfigureCheckoutState has set up, from a state and the volume to lock in it.
  pub record IsBinding (cs : CheckoutState) (lv : Pv) (out : CheckoutState) : Type 0 where
    pub v : Pv
    pub kept : Pv
    pub has_volume : out.volume ≡ some v
    pub has_locked : out.locked_volume ≡ some kept
    pub same_policy : v.spec.reclaim_policy ≡ original_policy lv
    pub is_retained : kept.spec.reclaim_policy ≡ retain
    pub remembers : original_policy kept ≡ original_policy lv
    pub refers : v.spec.claim_ref ≡ some (claim_reference k cs.claim)
    pub named : out.claim.spec.volume_name ≡ v.name
    pub locked_refers : kept.spec.claim_ref ≡ some (claim_reference k cs.locked_claim)
    pub locked_named : out.locked_claim.spec.volume_name ≡ lv.name
    pub same_name : kept.name ≡ lv.name

module _ (k : Kube) (laws : AnnotateLaws k) where
  text_at-remember_policy :
      (v : Pv) → text_at reclaim_key (remember_policy k v).metadata.annotations ≡ original_policy v
  unfolding remember_policy
  text_at-remember_policy v =
      ground (arith, laws.annotate_self v.metadata reclaim_key v.spec.reclaim_policy)

  pub lookup-remember_policy :
      (v : Pv)
      → lookup reclaim_key (remember_policy k v).metadata.annotations ≡ some (original_policy v)
  unfolding remember_policy
  lookup-remember_policy v =
      ground (arith, laws.annotate_self v.metadata reclaim_key v.spec.reclaim_policy)

  name-remember_policy : (v : Pv) → (remember_policy k v).name ≡ v.name
  unfolding remember_policy
  name-remember_policy v = ground arith

  configure_from-IsBinding :
      (cs : CheckoutState) (lv : Pv) → IsBinding k cs lv (configure_from k lv cs)
  unfolding configure_from copy_volume point_at lock_volume
  configure_from-IsBinding cs lv = record {
    v =
        copy_volume k cs.checkout.spec.access_modes cs.claim (remember_policy k lv)
          (new_volume k lv cs.volume);
    kept = lock_volume k cs.locked_claim (remember_policy k lv);
    has_volume = refl;
    has_locked = refl;
    same_policy = text_at-remember_policy lv;
    is_retained = refl;
    remembers = rw (lookup-remember_policy lv);
    refers = refl;
    named = refl;
    locked_refers = refl;
    locked_named = name-remember_policy lv;
    same_name = name-remember_policy lv;
  }

  -- With a volume to lock and a claim not yet bound, the new volume gets the reclaim policy that
  -- the volume had in the pool, the locked volume is retained and remembers that policy for every
  -- later reconcile, and each of the two volumes and its claim name each other.
  pub configure_checkout_state-IsBinding :
      (cs : CheckoutState) (lv : Pv)
      → is_bound cs.claim.phase ≡ false
      → cs.locked_volume ≡ some lv
      → IsBinding k cs lv (configure_checkout_state k cs)
  unfolding configure_checkout_state
  configure_checkout_state-IsBinding cs lv loose e = rw loose (
      subst (λ o. IsBinding k cs lv (configure_locked k o cs)) (sym e)
        (configure_from-IsBinding cs lv))
