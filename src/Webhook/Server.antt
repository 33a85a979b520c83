-- ===== src/Webhook/Server.antt =====
-- AddCheckoutValidatorToManager of pkg/webhook/checkout.go and AddPoolValidatorToManager of
-- pkg/webhook/pool.go, over the manager and the admission library as a parameter.
use pvpool.Prelude.{String, Option, none, List, [], ◌∷◌}
use pvpool.Exec.{Exec, ◌>>◌}
use pvpool.Api.Resources.{Pool, Checkout}
use pvpool.Validation.Rules.{Schema}
use pvpool.Webhook.Validators.{
  Rejection, Object, pool_create, pool_update, pool_delete, checkout_create, checkout_update,
  checkout_delete,
}
use pvpool.Webhook.Access.{Gate, Request, Response, handle}

-- webhook.Validator: what is to be said against a creation, an update and a deletion.
pub record Validator (A : Type 0) : Type 0 where
  pub validate_create : A → Option Rejection
  pub validate_update : A → Object → Option Rejection
  pub validate_delete : A → Option Rejection

-- admission.Handler.
abbrev pub Handler : Gate → Type 0
Handler g = Request g.Raw → Exec g.Error g.World (Response g.Error)

-- The manager, which its methods change, and the admission library.
pub record Server (g : Gate) : Type 1 where
  pub Manager : Type 0
  -- mgr.GetWebhookServer().Register
  pub register : String → Handler g → Exec g.Error Manager (Unit {0})
  -- a check that gives an error, or none
  pub add_healthz_check : String → Option g.Error → Exec g.Error Manager (Unit {0})
  pub add_readyz_check : String → Option g.Error → Exec g.Error Manager (Unit {0})
  -- admission.ValidatingWebhookFor and admission.MultiValidatingHandler
  pub pool_webhook_for : Validator Pool → Handler g
  pub checkout_webhook_for : Validator Checkout → Handler g
  pub multi_validating_handler : List (Handler g) → Handler g

abbrev pub checkout_path : String
checkout_path = "/validate-pvpool-puppet-com-v1alpha1-checkout"

abbrev pub pool_path : String
pool_path = "/validate-pvpool-puppet-com-v1alpha1-pool"

module _ (c : Schema) where
  abbrev pub pool_validator : Validator Pool
  pool_validator = record {
    validate_create = pool_create c;
    validate_update = pool_update c;
    validate_delete = pool_delete;
  }

  abbrev pub checkout_validator : Validator Checkout
  checkout_validator = record {
    validate_create = checkout_create;
    validate_update = checkout_update c;
    validate_delete = checkout_delete;
  }

  module _ (g : Gate) (s : Server g) where
    abbrev pub checkout_handler : Handler g
    checkout_handler =
        s.multi_validating_handler (s.checkout_webhook_for checkout_validator ∷ handle g ∷ [])

    unfoldable pub add_checkout_validator : Exec g.Error s.Manager (Unit {0})
    add_checkout_validator = do
      s.register checkout_path checkout_handler
      s.add_healthz_check "checkout" none
      s.add_readyz_check "checkout" none

    unfoldable pub add_pool_validator : Exec g.Error s.Manager (Unit {0})
    add_pool_validator = do
      s.register pool_path (s.pool_webhook_for pool_validator)
      s.add_healthz_check "pool" none
      s.add_readyz_check "pool" none
