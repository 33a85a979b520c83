-- ===== src/Condition.antt =====
-- UpdateCondition of pkg/controller/app/condition.go.
pub mod Laws
use pvpool.Prelude.{
  String, Option, none, some, zero, suc, Bool, true, false, ◌&&◌, ◌==◌, if◌then◌else◌,
}
use pvpool.Api.Core.{Time, ConditionStatus, unset, is_true, is_false, unknown}
use pvpool.Api.Resources.{Condition, empty_condition}

-- A composite literal, which leaves LastTransitionTime zero.
abbrev pub condition : ConditionStatus → String → String → Condition
condition status reason message = record {
  status = status;
  changed = 0;
  reason = reason;
  message = message;
}

-- `conds[typ]`, on a map.
abbrev pub cond_or_empty : Option Condition → Condition
cond_or_empty none = empty_condition
cond_or_empty (some c) = c

-- `s == t`
abbrev pub is_status : ConditionStatus → ConditionStatus → Bool
is_status unset unset = true
is_status is_true is_true = true
is_status is_false is_false = true
is_status unknown unknown = true
is_status _ _ = false

abbrev pub known_status : ConditionStatus → ConditionStatus
known_status unset = unknown
known_status s = s

abbrev pub stamp : Time → Time → Time
stamp now zero = now
stamp now (suc t) = suc t

-- `now` is what time.Now() gives in this call.
unfoldable pub update_condition : Time → Condition → Condition → Condition
update_condition now prev next0 =
    let next = record next0 { status = known_status next0.status } in
    if is_status next.status prev.status
      && next.reason == prev.reason
      && next.message == prev.message
    then prev
    else record next { changed = stamp now next.changed }
