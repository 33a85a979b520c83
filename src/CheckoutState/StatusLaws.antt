-- ===== src/CheckoutState/StatusLaws.antt =====
-- ConfigureCheckout (pkg/controller/app/checkout.go), run again on its own result.
use pvpool.Prelude.{◌≡◌, refl}
use pvpool.Api.Core.{Time}
use pvpool.Api.Resources.{acquired}
use pvpool.Api.State.{CheckoutState}
use pvpool.Condition.{cond_or_empty}
use pvpool.Condition.Laws.{update_condition_idem}
use pvpool.CheckoutState.Status.{configure_checkout, checkout_condition}

-- ConfigureCheckout settles at once: on the checkout that it made of a state, with the rest of the
-- state the same, it changes nothing at any later time.
pub configure_checkout_idem :
    (now later : Time) (cs : CheckoutState)
    → configure_checkout later (record cs { checkout = configure_checkout now cs })
      ≡ configure_checkout now cs
unfolding configure_checkout checkout_condition
configure_checkout_idem now later cs =
    rw
      (update_condition_idem now later
        (checkout_condition acquired cs.checkout.status.conditions).condition
        (cond_or_empty (cs.conds acquired)))
      refl
