-- ===== src/Tests/Webhooks.antt =====
-- Runs of the webhook's validators and of its access check.
use pvpool.Prelude.{
  ◌≡◌, refl, ◌↔◌, ◌⊎◌, Bool, true, false, none, some, List, [], ◌∷◌, String, pos, ◌==◌,
  if◌then◌else◌, text_at,
}
use pvpool.Exec.{ok}
use pvpool.Api.Core.{LabelSelector}
use pvpool.Api.Resources.{Pool, Checkout, MountJob, new_pool, new_checkout}
use pvpool.Validation.Rules.{
  Schema, validate_pool_spec, validate_pvc_template, validate_mount_job, selects_nothing,
  is_unsupported, exceeds,
}
use pvpool.Replica.Jobs.{configure_job}
use pvpool.Replica.JobLimits.{RunsAsAsked}
use pvpool.Webhook.Validators.{checkout, pool_create, checkout_update}
use pvpool.Webhook.Access.{Gate, Request, UserInfo, Resource, create, review_of, handle}
use pvpool.Webhook.Agreement.{IsGranted, handle-IsGranted, checkout_update-accepts}
use pvpool.Webhook.Acceptance.{IsAccepted, pool_create-IsAccepted, pool_create-RunsAsAsked}
use pvpool.Tests.Cluster.{blank_job}
use pvpool.Tests.Pools.{key_of}

-- Selectors are their labels; only the first label counts.
abbrev has_first : LabelSelector → List (String × String) → Bool
has_first s labels = elim s.match_labels [ [] ↦ true | l ∷ _ ↦ text_at l.0 labels == l.1 ]

abbrev no_labels : LabelSelector → Bool
no_labels s = elim s.match_labels [ [] ↦ true | _ ∷ _ ↦ false ]

abbrev pub schema : Schema
schema = record {
  Selector = LabelSelector;
  as_selector = λ s. some s;
  is_empty = no_labels;
  matches = has_first;
  validate_labels = λ _ _. [];
  validate_annotations = λ _ _. [];
  validate_label_selector = λ _ _. [];
  validate_immutable = λ _ _ _. [];
  same_spec = λ a b. a.claim_name == b.claim_name;
}

abbrev job : MountJob
job = record {
  template = record {
    metadata = (blank_job (key_of "job")).metadata;
    spec = record ((blank_job (key_of "job")).spec) {
      active_deadline_seconds = some (pos 120);
      backoff_limit = some (pos 3);
    };
  };
  volume_name = "data";
}

abbrev empty : Pool
empty = new_pool (key_of "pool")

abbrev labelled : Pool
labelled = record empty {
  spec = record (empty.spec) {
    selector = record { match_labels = ("app", "pool") ∷ []; match_expressions = [] };
    template = record (empty.spec.template) {
      metadata = record (empty.spec.template.metadata) { labels = ("app", "pool") ∷ [] };
    };
    init_job = some job;
  };
}

accepted : pool_create schema labelled ≡ none
unfolding pool_create validate_pool_spec validate_pvc_template validate_mount_job selects_nothing
    is_unsupported exceeds
accepted = refl

pool_create-IsAccepted_example : IsAccepted schema labelled
pool_create-IsAccepted_example = pool_create-IsAccepted schema labelled accepted

pool_create-RunsAsAsked_example : RunsAsAsked job "a" (configure_job (some job) "a")
pool_create-RunsAsAsked_example = pool_create-RunsAsAsked schema labelled job "a" accepted refl

abbrev pub request : Checkout
request = record (new_checkout (key_of "checkout")) {
  metadata = record ((new_checkout (key_of "checkout")).metadata) { namespace = "ns" };
  spec = record {
    pool_ref = record { namespace = ""; name = "pool" };
    claim_name = "data";
    access_modes = [];
  };
}

abbrev pub user : UserInfo
user = record { username = "alice"; uid = "1"; groups = []; extra = [] }

abbrev pools : Resource
pools = record { group = "pvpool.puppet.com"; resource = "pools" }

-- An API server that lets Alice use the pools of one namespace.
abbrev pub gate : Gate
gate = record {
  World = Unit {0};
  Error = String;
  Raw = Checkout;
  decode = λ c. ok c;
  rest_mapping = ok pools;
  create_review = λ r w. (
    ok (record {
      allowed = if r.user.username == "alice" then r.namespace == "ns" else false;
      reason = "";
    }),
    w,
  );
  sprintf = λ format _. format;
}

abbrev creation : Request Checkout
creation = record { operation = create; object = request; old_object = request; user = user }

handle-IsGranted_example : IsGranted gate creation tt tt
handle-IsGranted_example =
    handle-IsGranted gate creation tt tt refl (unfold handle review_of in refl)

checkout_update-accepts_example :
    (checkout_update schema request (checkout request) ≡ none)
    ↔ ((request.status.volume_name ≡ "") ⊎ (schema.same_spec request.spec request.spec ≡ true))
checkout_update-accepts_example = checkout_update-accepts schema request request
