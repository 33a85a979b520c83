-- ===== src/Webhook/Serving.antt =====
-- What the webhook server lets through at the path of checkouts.
use pvpool.Prelude.{◌≡◌, refl, sym, ap, subst, ◌∙◌, String, Option, none, some, List, [], ◌∷◌, All}
use pvpool.Prelude.Members.{some-eq}
use pvpool.Exec.{Outcome, ok}
use pvpool.Exec.Rules.{>>=-eq-ok}
use pvpool.Api.Resources.{Checkout}
use pvpool.Validation.Rules.{Schema}
use pvpool.Webhook.Validators.{checkout, checkout_update}
use pvpool.Webhook.Access.{Gate, Request, update, allowed, handle}
use pvpool.Webhook.Agreement.{IsGranted, handle-IsGranted}
use pvpool.Webhook.Server.{
  Validator, Handler, Server, checkout_path, checkout_validator, checkout_handler,
  add_checkout_validator,
}

module _ (g : Gate) where
  -- A handler has allowed a request, in some state of the server.
  pub record Allows (h : Handler g) (req : Request g.Raw) : Type 0 where
    pub before : g.World
    pub after : g.World
    pub is_allowed : h req before ≡ (ok allowed, after)

  module _ (s : Server g) where
    -- The handler that answers at a path.
    abbrev pub Serving : Type 0
    Serving = s.Manager → String → Option (Handler g)

    -- The documented behaviour of the manager and of the admission library: a handler that was
    -- registered answers at its path, checks do not matter for that; handlers are called one after
    -- the other and the first that refuses ends it; and a validator's error refuses an update.
    pub record ServerLaws (serving : Serving) : Type 0 where
      pub serving-register :
          (path : String) (h : Handler g) (mgr mgr' : s.Manager)
          → s.register path h mgr ≡ (ok tt, mgr')
          → serving mgr' path ≡ some h
      pub serving-add_healthz_check :
          (path name : String) (e : Option g.Error) (mgr : s.Manager)
          → serving (s.add_healthz_check name e mgr).1 path ≡ serving mgr path
      pub serving-add_readyz_check :
          (path name : String) (e : Option g.Error) (mgr : s.Manager)
          → serving (s.add_readyz_check name e mgr).1 path ≡ serving mgr path
      pub multi_validating_handler-Allows :
          (hs : List (Handler g)) (req : Request g.Raw)
          → Allows (s.multi_validating_handler hs) req
          → All (λ h. Allows h req) hs
      pub checkout_webhook_for-Allows :
          (v : Validator Checkout) (req : Request g.Raw)
          → Allows (s.checkout_webhook_for v) req
          → req.operation ≡ update
          → (new old : Checkout) × (g.decode req.object ≡ ok new)
            × (g.decode req.old_object ≡ ok old)
            × (v.validate_update new (checkout old) ≡ none)

module _ (c : Schema) (g : Gate) (s : Server g) where
  -- An update of a checkout that passed both handlers.
  pub record IsVetted (req : Request g.Raw) : Type 0 where
    pub new : Checkout
    pub old : Checkout
    pub is_decoded : g.decode req.object ≡ ok new
    pub is_decoded_old : g.decode req.old_object ≡ ok old
    pub is_accepted : checkout_update c new (checkout old) ≡ none
    pub before : g.World
    pub after : g.World
    pub is_granted : IsGranted g req before after

  module _ (serving : Serving g s) (laws : ServerLaws g s serving) where
    serving-add_checkout_validator :
        (mgr mgr' : s.Manager)
        → add_checkout_validator c g s mgr ≡ (ok tt, mgr')
        → serving mgr' checkout_path ≡ some (checkout_handler c g s)
    unfolding add_checkout_validator
    serving-add_checkout_validator mgr mgr' h =
        let (_, m1, e1, h1) =
          >>=-eq-ok (s.register checkout_path (checkout_handler c g s)) _ mgr h in
        let (_, m2, e2, h2) = >>=-eq-ok (s.add_healthz_check "checkout" none) _ m1 h1 in
        let at_path : Outcome g.Error (Unit {0}) × s.Manager → Option (Handler g) =
          λ d. serving d.1 checkout_path in
        ap at_path (sym h2)
        ∙ laws.serving-add_readyz_check checkout_path "checkout" none m2
        ∙ ap at_path (sym e2)
        ∙ laws.serving-add_healthz_check checkout_path "checkout" none m1
        ∙ laws.serving-register checkout_path (checkout_handler c g s) mgr m1 e1

    checkout_handler-IsVetted :
        (req : Request g.Raw)
        → req.operation ≡ update
        → Allows g (checkout_handler c g s) req
        → IsVetted req
    checkout_handler-IsVetted req op h =
        let (validated, (granted, _)) =
          laws.multi_validating_handler-Allows
            (s.checkout_webhook_for (checkout_validator c) ∷ handle g ∷ []) req h in
        let (new, old, d, d', accepted) =
          laws.checkout_webhook_for-Allows (checkout_validator c) req validated op in
        record {
          new = new;
          old = old;
          is_decoded = d;
          is_decoded_old = d';
          is_accepted = accepted;
          before = granted.before;
          after = granted.after;
          is_granted =
              handle-IsGranted g req granted.before granted.after (rw op refl) granted.is_allowed;
        }

    -- After AddCheckoutValidatorToManager has succeeded, any update of a checkout that is allowed at
    -- the webhook's path was accepted by ValidateUpdate, and a review said that its user may use the
    -- pool of the new checkout.
    pub add_checkout_validator-IsVetted :
        (mgr mgr' : s.Manager) (h : Handler g) (req : Request g.Raw)
        → add_checkout_validator c g s mgr ≡ (ok tt, mgr')
        → serving mgr' checkout_path ≡ some h
        → req.operation ≡ update
        → Allows g h req
        → IsVetted req
    add_checkout_validator-IsVetted mgr mgr' h req added served op allows =
        checkout_handler-IsVetted req op (
          subst (λ f. Allows g f req)
            (some-eq (sym served ∙ serving-add_checkout_validator mgr mgr' added)) allows)
