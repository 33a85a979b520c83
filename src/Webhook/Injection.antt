-- ===== src/Webhook/Injection.antt =====
-- The fields of CheckoutRBACValidatorHandler (pkg/webhook/checkout.go) that controller-runtime sets
-- before it serves: InjectDecoder, InjectMapper, and Handle on a handler where they may be missing.
use pvpool.Prelude.{◌≡◌, refl, Option, none, some}
use pvpool.Exec.{Outcome, panic, Exec, modify, ◌>>◌}
use pvpool.Api.Resources.{Checkout}
use pvpool.Webhook.Access.{Gate, Request, Resource, Run, handle}

module _ (g : Gate) where
  -- *admission.Decoder, whose Decode may be called on nil, and meta.RESTMapper.
  pub record Parts : Type 1 where
    pub Decoder : Type 0
    pub Mapper : Type 0
    pub decode : Option Decoder → g.Raw → Outcome g.Error Checkout
    pub rest_mapping : Mapper → Outcome g.Error Resource

  module _ (parts : Parts) where
    -- The client is part of the gate.
    pub record RbacHandler : Type 0 where
      pub decoder : Option parts.Decoder
      pub mapper : Option parts.Mapper

    -- As AddCheckoutValidatorToManager makes it.
    abbrev pub new_handler : RbacHandler
    new_handler = record { decoder = none; mapper = none }

    unfoldable pub inject_decoder : parts.Decoder → Exec g.Error RbacHandler (Unit {0})
    inject_decoder d = modify λ h. record h { decoder = some d }

    unfoldable pub inject_mapper : parts.Mapper → Exec g.Error RbacHandler (Unit {0})
    inject_mapper m = modify λ h. record h { mapper = some m }

    -- A call of a nil mapper's method panics.
    abbrev pub mapping_of : Option parts.Mapper → Outcome g.Error Resource
    mapping_of none = panic
    mapping_of (some m) = parts.rest_mapping m

    abbrev pub gate_of : RbacHandler → Gate
    gate_of h = record g { decode = parts.decode h.decoder; rest_mapping = mapping_of h.mapper }

    unfoldable pub handle_with : RbacHandler → Request g.Raw → g.World → Run g
    handle_with h req w = handle (gate_of h) req w

    -- After both injections, in either order, Handle uses what was injected.
    pub handle_with-inject :
        (d : parts.Decoder) (m : parts.Mapper) (h : RbacHandler) (req : Request g.Raw) (w : g.World)
        → let injected : Gate = record g {
          decode = parts.decode (some d);
          rest_mapping = parts.rest_mapping m;
        } in
          (handle_with ((inject_decoder d >> inject_mapper m) h).1 req w ≡ handle injected req w)
          × (handle_with ((inject_mapper m >> inject_decoder d) h).1 req w ≡ handle injected req w)
    unfolding handle_with inject_decoder inject_mapper
    handle_with-inject d m h req w = (refl, refl)
