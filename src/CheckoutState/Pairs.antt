-- ===== src/CheckoutState/Pairs.antt =====
-- The two pairs of a claim and a volume that Load and Persist go through, and NewCheckoutState of
-- pkg/controller/app/checkout_state.go.
use pvpool.Prelude.{String, Option, none, if◌then◌else◌, ◌==◌}
use pvpool.Exec.{Exec, on}
use pvpool.Api.Core.{Pvc, Pv}
use pvpool.Api.Resources.{Condition, Checkout, acquired}
use pvpool.Api.State.{CheckoutState, set_checkout_cond}
use pvpool.Kube.{Kube}

pub data Pair : Type 0 where
  locked final : Pair

abbrev pub claim_of : Pair → CheckoutState → Pvc
claim_of locked cs = cs.locked_claim
claim_of final cs = cs.claim

abbrev pub put_claim : Pair → Pvc → CheckoutState → CheckoutState
put_claim locked c cs = record cs { locked_claim = c }
put_claim final c cs = record cs { claim = c }

abbrev pub volume_of : Pair → CheckoutState → Option Pv
volume_of locked cs = cs.locked_volume
volume_of final cs = cs.volume

abbrev pub put_volume : Pair → Option Pv → CheckoutState → CheckoutState
put_volume locked v cs = record cs { locked_volume = v }
put_volume final v cs = record cs { volume = v }

abbrev pub note_cond : Condition → CheckoutState → CheckoutState
note_cond c cs = record cs { conds = set_checkout_cond acquired c cs.conds }

-- The first text, unless it is empty.
unfoldable pub or_else : String → String → String
or_else a b = if a == "" then b else a

module _ (k : Kube) where
  abbrev pub Method : Type 0 → Type 0
  Method A = Exec k.Error (k.World × CheckoutState) A

  abbrev pub on_claim : {A : Type 0} → Pair → Exec k.Error (k.World × Pvc) A → Method A
  on_claim p m = on (claim_of p) (put_claim p) m

  unfoldable pub new_checkout_state : Checkout → CheckoutState
  unfolding or_else
  new_checkout_state c = record {
    checkout = c;
    claim =
        k.new_pvc
          (record { namespace = c.key.namespace; name = or_else c.spec.claim_name c.key.name });
    volume = none;
    locked_claim =
        k.new_pvc (record {
          namespace = c.key.namespace;
          name = k.meta_name_suffixed c.key.name "-locked";
        });
    locked_volume = none;
    conds = λ _. none;
  }
