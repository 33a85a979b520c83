-- ===== src/CheckoutState/Status.antt =====
-- ConfigureCheckout of pkg/controller/app/checkout.go: the status of a checkout.
use pvpool.Prelude.{String, Option, none, some, List, [], ◌∷◌, map, if◌then◌else◌}
use pvpool.Api.Core.{Time, Pv, Pvc}
use pvpool.Api.Resources.{
  empty_condition, CheckoutConditionType, acquired, is_checkout_type, CheckoutCondition, Checkout,
}
use pvpool.Api.State.{CheckoutState}
use pvpool.Condition.{update_condition, cond_or_empty}
use pvpool.Replica.Phase.{is_bound}

-- obj.Checkout.Condition: the condition of a type, or an empty one.
unfoldable pub checkout_condition :
    CheckoutConditionType → List CheckoutCondition → CheckoutCondition
checkout_condition typ [] = record { condition = empty_condition; kind = typ }
checkout_condition typ (c ∷ cs) =
    if is_checkout_type c.kind typ then c else checkout_condition typ cs

abbrev next_condition : Time → CheckoutState → CheckoutConditionType → CheckoutCondition
next_condition now cs typ = record {
  condition =
      update_condition now (checkout_condition typ cs.checkout.status.conditions).condition
        (cond_or_empty (cs.conds typ));
  kind = typ;
}

abbrev name_of : Option Pv → String
name_of none = ""
name_of (some v) = v.name

abbrev claim_ref_name : Option Pv → Pvc → String
claim_ref_name none claim = ""
claim_ref_name (some v) claim = if is_bound claim.phase then claim.key.name else ""

-- The checkout with its new status.
unfoldable pub configure_checkout : Time → CheckoutState → Checkout
configure_checkout now cs = record (cs.checkout) {
  status = record {
    volume_name = name_of cs.volume;
    volume_claim_ref = claim_ref_name cs.volume cs.claim;
    conditions = map (next_condition now cs) (acquired ∷ []);
  };
}
