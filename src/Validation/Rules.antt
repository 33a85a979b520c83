-- ===== src/Validation/Rules.antt =====
-- The functions of validation.go.
use pvpool.Prelude.{
  zero, suc, ◌+◌, String, Bool, true, false, not, Option, none, some, List, [], ◌∷◌, ◌++◌, ◌==◌,
  if◌then◌else◌, length, ℤ, ltb_ℤ,
}
use pvpool.Api.Core.{Dict, LabelSelector, RestartPolicy, unset, always, on_failure, never}
use pvpool.Api.Resources.{PvcTemplate, MountJob, PoolSpec, CheckoutSpec, Checkout}
use pvpool.Validation.Limits.{mount_job_max_active_deadline_seconds, mount_job_max_backoff_limit}

abbrev pub FieldPath : Type 0
FieldPath = List String

pub data ErrorKind : Type 0 where
  invalid not_supported : ErrorKind

pub record FieldError : Type 0 where
  pub kind : ErrorKind
  pub path : FieldPath
  pub detail : String

abbrev pub ErrorList : Type 0
ErrorList = List FieldError

-- The apimachinery library's part: `as_selector` gives none where it fails, and `same_spec` is
-- equality.Semantic.DeepEqual.
pub record Schema : Type 1 where
  pub Selector : Type 0
  pub as_selector : LabelSelector → Option Selector
  pub is_empty : Selector → Bool
  pub matches : Selector → Dict → Bool
  pub validate_labels : Dict → FieldPath → ErrorList
  pub validate_annotations : Dict → FieldPath → ErrorList
  pub validate_label_selector : LabelSelector → FieldPath → ErrorList
  pub validate_immutable : LabelSelector → LabelSelector → FieldPath → ErrorList
  pub same_spec : CheckoutSpec → CheckoutSpec → Bool

abbrev pub error_at : ErrorKind → FieldPath → String → FieldError
error_at kind path detail = record { kind = kind; path = path; detail = detail }

-- `if wrong { errs = append(errs, e) }`
abbrev pub error_if : Bool → FieldError → ErrorList
error_if wrong e = if wrong then e ∷ [] else []

-- `policy != "" && policy != MountJobSpecBackoffPolicy`
unfoldable pub is_unsupported : RestartPolicy → Bool
is_unsupported unset = false
is_unsupported never = false
is_unsupported always = true
is_unsupported on_failure = true

-- `n != nil && *n > limit`
unfoldable pub exceeds : ℤ → Option ℤ → Bool
exceeds limit none = false
exceeds limit (some n) = ltb_ℤ limit n

unfoldable pub validate_mount_job : MountJob → FieldPath → ErrorList
unfolding is_unsupported exceeds
validate_mount_job j p =
    let spec = j.template.spec in
    error_if (is_unsupported spec.pod.restart_policy) (
      error_at not_supported (p ++ "template" ∷ "spec" ∷ "template" ∷ "spec" ∷ "restartPolicy" ∷ [])
        "Never")
    ++ (error_if (exceeds mount_job_max_active_deadline_seconds spec.active_deadline_seconds) (
          error_at invalid (p ++ "template" ∷ "spec" ∷ "activeDeadlineSeconds" ∷ [])
            "must be at most 300")
        ++ error_if (exceeds mount_job_max_backoff_limit spec.backoff_limit) (
            error_at invalid (p ++ "template" ∷ "spec" ∷ "backoffLimit" ∷ []) "must be at most 10"))

abbrev pub validate_init_job : Option MountJob → FieldPath → ErrorList
validate_init_job none p = []
validate_init_job (some j) p = validate_mount_job j (p ++ "initJob" ∷ [])

-- `len(MatchLabels)+len(MatchExpressions) == 0`
unfoldable pub selects_nothing : LabelSelector → Bool
selects_nothing s = elim (length s.match_labels + length s.match_expressions) [
  | zero ↦ true
  | suc n ↦ false
]

module _ (c : Schema) where
  -- Annotations are reported at the path of the labels.
  unfoldable pub validate_pvc_template : PvcTemplate → c.Selector → FieldPath → ErrorList
  validate_pvc_template tpl selector p =
      let at = p ++ "metadata" ∷ "labels" ∷ [] in
      c.validate_labels tpl.metadata.labels at
      ++ (c.validate_annotations tpl.metadata.annotations at
          ++ (if c.is_empty selector
              then []
              else error_if (not (c.matches selector tpl.metadata.labels))
                  (error_at invalid at "`selector` does not match template `labels`")))

  abbrev pub validate_template : Option c.Selector → PoolSpec → FieldPath → ErrorList
  validate_template none spec p =
      error_at invalid (p ++ "selector" ∷ []) "invalid label selector" ∷ []
  validate_template (some selector) spec p =
      validate_pvc_template spec.template selector (p ++ "template" ∷ [])

  unfoldable pub validate_pool_spec : PoolSpec → FieldPath → ErrorList
  validate_pool_spec spec p =
      c.validate_label_selector spec.selector (p ++ "selector" ∷ [])
      ++ (error_if (selects_nothing spec.selector)
            (error_at invalid (p ++ "selector" ∷ []) "empty selector is invalid for deployment")
          ++ (validate_template (c.as_selector spec.selector) spec p
              ++ validate_init_job spec.init_job p))

  unfoldable pub validate_pool_spec_update : PoolSpec → PoolSpec → FieldPath → ErrorList
  validate_pool_spec_update new old p =
      validate_pool_spec new p
      ++ c.validate_immutable new.selector old.selector (p ++ "selector" ∷ [])

  unfoldable pub validate_checkout_update : Checkout → Checkout → ErrorList
  validate_checkout_update new old =
      if old.status.volume_name == ""
      then []
      else error_if (not (c.same_spec old.spec new.spec))
          (error_at invalid ("spec" ∷ []) "field is immutable once a volume has been selected")
