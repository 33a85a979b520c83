-- ===== src/Webhook/Validators.antt =====
-- PoolValidator of pkg/webhook/pool.go and CheckoutValidator of pkg/webhook/checkout.go.
use pvpool.Prelude.{String, Option, none, some, [], ◌∷◌}
use pvpool.Api.Resources.{Pool, Checkout}
use pvpool.Validation.Rules.{
  ErrorList, Schema, validate_pool_spec, validate_pool_spec_update, validate_checkout_update,
}

-- errors.NewInvalid for an object, or an error about the type of the old object.
pub data Rejection : Type 0 where
  invalid : (kind name : String) → ErrorList → Rejection
  unexpected_type : Rejection

-- The old object of an update, as far as the type assertions tell its type.
pub data Object : Type 0 where
  pool : Pool → Object
  checkout : Checkout → Object
  other : Object

-- The error for a list of field errors, none where it is empty.
abbrev pub reject : String → String → ErrorList → Option Rejection
reject kind name [] = none
reject kind name (e ∷ errs) = some (invalid kind name (e ∷ errs))

module _ (c : Schema) where
  unfoldable pub pool_create : Pool → Option Rejection
  pool_create p = reject "Pool" p.key.name (validate_pool_spec c p.spec ("spec" ∷ []))

  unfoldable pub pool_update : Pool → Object → Option Rejection
  pool_update p (pool old) =
      reject "Pool" p.key.name (validate_pool_spec_update c p.spec old.spec ("spec" ∷ []))
  pool_update p _ = some unexpected_type

  unfoldable pub checkout_update : Checkout → Object → Option Rejection
  checkout_update new (checkout old) =
      reject "Checkout" new.key.name (validate_checkout_update c new old)
  checkout_update new _ = some unexpected_type

-- ValidateDelete of both validators, and ValidateCreate of a checkout.
abbrev pub pool_delete : Pool → Option Rejection
pool_delete p = none

abbrev pub checkout_create : Checkout → Option Rejection
checkout_create c = none

abbrev pub checkout_delete : Checkout → Option Rejection
checkout_delete c = none
