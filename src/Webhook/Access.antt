-- ===== src/Webhook/Access.antt =====
-- CheckoutRBACValidatorHandler.Handle of pkg/webhook/checkout.go: who creates or changes a checkout
-- must be allowed to use its pool.
use pvpool.Prelude.{ℕ, String, Bool, true, false, List, [], ◌∷◌, ◌==◌}
use pvpool.Prelude.{if◌then◌else◌}
use pvpool.Exec.{Outcome, ok, err, panic, timeout, Exec}
use pvpool.Api.Resources.{Checkout}
use pvpool.CheckoutState.Pairs.{or_else}
use pvpool.Webhook.Validators.{Rejection}

pub data Operation : Type 0 where
  create update delete connect : Operation

pub record UserInfo : Type 0 where
  pub username : String
  pub uid : String
  pub groups : List String
  pub extra : List (String × List String)

-- What RESTMapping says of pools.
pub record Resource : Type 0 where
  pub group : String
  pub resource : String

-- The spec of a SubjectAccessReview.
pub record Review : Type 0 where
  pub verb : String
  pub group : String
  pub resource : String
  pub namespace : String
  pub name : String
  pub user : UserInfo

pub record ReviewStatus : Type 0 where
  pub allowed : Bool
  pub reason : String

-- The API server, the decoder and the mapper; `Raw` is the object in the request.
pub record Gate : Type 1 where
  pub World : Type 0
  pub Error : Type 0
  pub Raw : Type 0
  pub decode : Raw → Outcome Error Checkout
  pub rest_mapping : Outcome Error Resource
  pub create_review : Review → Exec Error World ReviewStatus
  pub sprintf : String → List String → String

pub record Request (Raw : Type 0) : Type 0 where
  pub operation : Operation
  pub object : Raw
  pub old_object : Raw
  pub user : UserInfo

pub data Response (E : Type 0) : Type 0 where
  allowed : Response E
  errored : (code : ℕ) → E → Response E
  -- what the admission library makes of a validator's error
  denied : Rejection → Response E
  forbidden : Resource → (name reason : String) → Response E

-- The namespace of the pool, that of the checkout by default.
unfoldable pub review_namespace : Checkout → String
unfolding or_else
review_namespace c = or_else c.spec.pool_ref.namespace c.metadata.namespace

unfoldable pub review_of : UserInfo → Resource → Checkout → Review
unfolding review_namespace
review_of user res c = record {
  verb = "use";
  group = res.group;
  resource = res.resource;
  namespace = review_namespace c;
  name = c.spec.pool_ref.name;
  user = user;
}

-- `case Create, Update`
abbrev pub is_checked : Operation → Bool
is_checked create = true
is_checked update = true
is_checked _ = false

module _ (g : Gate) where
  abbrev pub Run : Type 0
  Run = Outcome g.Error (Response g.Error) × g.World

  abbrev pub default_reason : UserInfo → Resource → Checkout → String
  default_reason user res c =
      g.sprintf "User %q cannot use resource %q in API group %q in the namespace %q"
        (user.username ∷ res.resource ∷ res.group ∷ review_namespace c ∷ [])

  -- `if !review.Status.Allowed`, and the end of Handle.
  abbrev pub verdict : UserInfo → Resource → Checkout → ReviewStatus → Response g.Error
  verdict user res c status =
      if status.allowed
      then allowed
      else forbidden res c.spec.pool_ref.name
          (if status.reason == "" then default_reason user res c else status.reason)

  abbrev pub reviewed :
      UserInfo → Resource → Checkout → Outcome g.Error ReviewStatus × g.World → Run
  reviewed user res c (ok status, w) = (ok (verdict user res c status), w)
  reviewed user res c (err e, w) = (ok (errored 500 e), w)
  reviewed user res c (panic, w) = (panic, w)
  reviewed user res c (timeout, w) = (timeout, w)

  abbrev pub review : UserInfo → Checkout → Resource → g.World → Run
  review user c res w = reviewed user res c (g.create_review (review_of user res c) w)

  abbrev pub with_mapping : UserInfo → Checkout → Outcome g.Error Resource → g.World → Run
  with_mapping user c (ok res) w = review user c res w
  with_mapping user c (err e) w = (ok (errored 500 e), w)
  with_mapping user c panic w = (panic, w)
  with_mapping user c timeout w = (timeout, w)

  abbrev pub decoded : UserInfo → Outcome g.Error Checkout → g.World → Run
  decoded user (ok c) w = with_mapping user c g.rest_mapping w
  decoded user (err e) w = (ok (errored 400 e), w)
  decoded user panic w = (panic, w)
  decoded user timeout w = (timeout, w)

  unfoldable pub handle : Request g.Raw → g.World → Run
  handle req w =
      if is_checked req.operation then decoded req.user (g.decode req.object) w else (ok allowed, w)
