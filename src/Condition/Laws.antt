-- ===== src/Condition/Laws.antt =====
-- What UpdateCondition (pkg/controller/app/condition.go) makes of a new condition.
use pvpool.Prelude.{◌≡◌, ◌≢◌, arith, eq_iff, true}
use pvpool.Api.Core.{Time, ConditionStatus, unset}
use pvpool.Api.Resources.{Condition}
use pvpool.Condition.{is_status, known_status, update_condition}

is_status→eq : (s t : ConditionStatus) → is_status s t ≡ true → s ≡ t
is_status→eq s t h = ground arith

is_status_refl : (s : ConditionStatus) → is_status s s ≡ true
is_status_refl s = ground arith

-- Whether or not the old condition is kept, the result has the new reason and message and the new
-- status, with Unknown for an empty one, so the status is never empty.
pub update_condition_lem :
    (now : Time) (prev next : Condition)
    → let c = update_condition now prev next in
      (c.status ≡ known_status next.status)
      × (c.status ≢ unset)
      × (c.reason ≡ next.reason)
      × (c.message ≡ next.message)
unfolding update_condition
update_condition_lem now prev next = ground (
  arith,
  is_status→eq (known_status next.status) prev.status,
  eq_iff next.reason prev.reason,
  eq_iff next.message prev.message,
)

-- The transition time moves only with the condition: applying the same condition again, at any
-- later time, changes nothing.
pub update_condition_idem :
    (now later : Time) (prev next : Condition)
    → update_condition later (update_condition now prev next) next ≡ update_condition now prev next
unfolding update_condition
update_condition_idem now later prev next = ground (
  arith,
  is_status→eq (known_status next.status) prev.status,
  is_status_refl (known_status next.status),
  eq_iff next.reason prev.reason,
  eq_iff next.message prev.message,
  eq_iff next.reason next.reason,
  eq_iff next.message next.message,
)
