-- ===== src/Webhook/Agreement.antt =====
-- What the webhook lets through, and which pool it checks.
use pvpool.Prelude.{◌≡◌, refl, ◌↔◌, ◌⊎◌, true, none, arith, eq_iff}
use pvpool.Exec.{Outcome, ok, err, panic, timeout}
use pvpool.Api.Resources.{Checkout}
use pvpool.CheckoutState.Load.{pool_key}
use pvpool.Validation.Rules.{Schema, validate_checkout_update}
use pvpool.Webhook.Validators.{checkout, checkout_update}
use pvpool.Webhook.Access.{
  Gate, Request, Resource, ReviewStatus, UserInfo, allowed, is_checked, review_of, handle, reviewed,
  with_mapping, decoded,
}

-- The review asks about the pool that the controller will take the volume from, if the decoded
-- checkout carries the namespace under which the controller loads it.
pub review_of-pool_key :
    (user : UserInfo) (res : Resource) (c : Checkout)
    → c.key.namespace ≡ c.metadata.namespace
    → ((review_of user res c).namespace ≡ (pool_key c).namespace)
      × ((review_of user res c).name ≡ (pool_key c).name)
      × ((review_of user res c).verb ≡ "use")
unfolding review_of pool_key
review_of-pool_key user res c h = rw h (refl, refl, refl)

module _ (g : Gate) where
  -- Why a request was allowed.
  pub record IsGranted (req : Request g.Raw) (w w' : g.World) : Type 0 where
    pub c : Checkout
    pub res : Resource
    pub status : ReviewStatus
    pub is_decoded : g.decode req.object ≡ ok c
    pub is_mapped : g.rest_mapping ≡ ok res
    pub is_reviewed : g.create_review (review_of req.user res c) w ≡ (ok status, w')
    pub is_allowed : status.allowed ≡ true

  module _ (req : Request g.Raw) (w w' : g.World) where
    from_review :
        (c : Checkout) (res : Resource) (d : Outcome g.Error ReviewStatus × g.World)
        → g.decode req.object ≡ ok c
        → g.rest_mapping ≡ ok res
        → g.create_review (review_of req.user res c) w ≡ d
        → reviewed g req.user res c d ≡ (ok allowed, w')
        → IsGranted req w w'
    from_review c res (ok status, t) p q e h = record {
      c = c;
      res = res;
      status = status;
      is_decoded = p;
      is_mapped = q;
      is_reviewed = cc;
      is_allowed = ground arith;
    }
    from_review c res (err x, t) p q e h = absurd (cc)
    from_review c res (panic, t) p q e h = absurd (cc)
    from_review c res (timeout, t) p q e h = absurd (cc)

    from_mapping :
        (c : Checkout) (m : Outcome g.Error Resource)
        → g.decode req.object ≡ ok c
        → g.rest_mapping ≡ m
        → with_mapping g req.user c m w ≡ (ok allowed, w')
        → IsGranted req w w'
    from_mapping c (ok res) p q h = from_review c res _ p q refl h
    from_mapping c (err x) p q h = absurd (cc)
    from_mapping c panic p q h = absurd (cc)
    from_mapping c timeout p q h = absurd (cc)

    from_decode :
        (d : Outcome g.Error Checkout)
        → g.decode req.object ≡ d
        → decoded g req.user d w ≡ (ok allowed, w')
        → IsGranted req w w'
    from_decode (ok c) p h = from_mapping c g.rest_mapping p refl h
    from_decode (err x) p h = absurd (cc)
    from_decode panic p h = absurd (cc)
    from_decode timeout p h = absurd (cc)

    -- A creation or an update of a checkout is allowed only after the object was decoded and a
    -- review of its user's right to use its pool said yes; every failure on the way refuses it.
    pub handle-IsGranted :
        is_checked req.operation ≡ true → handle g req w ≡ (ok allowed, w') → IsGranted req w w'
    unfolding handle
    handle-IsGranted checked h = from_decode (g.decode req.object) refl (rw checked at h)

module _ (c : Schema) where
  -- An update of a checkout is accepted exactly if no volume was selected for it yet or its spec
  -- is the same.
  pub checkout_update-accepts :
      (new old : Checkout)
      → (checkout_update c new (checkout old) ≡ none)
        ↔ ((old.status.volume_name ≡ "") ⊎ (c.same_spec old.spec new.spec ≡ true))
  unfolding checkout_update validate_checkout_update
  checkout_update-accepts new old = (
    λ h. ground (arith, eq_iff old.status.volume_name ""),
    λ h. ground (arith, eq_iff old.status.volume_name ""),
  )
