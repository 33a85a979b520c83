-- ===== src/Webhook/Acceptance.antt =====
-- What the pool webhook's acceptance means for the controller.
use pvpool.Prelude.{
  ◌≡◌, refl, Bool, true, false, ◌||◌, Option, none, some, List, [], ◌∷◌, ◌++◌, arith, String,
}
use pvpool.Api.Resources.{Pool, MountJob, PoolSpec}
use pvpool.Validation.Rules.{
  Schema, ErrorList, FieldPath, FieldError, error_if, validate_pool_spec, validate_template,
  validate_init_job, validate_pvc_template, selects_nothing, validate_mount_job,
}
use pvpool.Replica.Jobs.{configure_job}
use pvpool.Replica.JobLimits.{RunsAsAsked, accepted_job}
use pvpool.Webhook.Validators.{reject, pool_create}

append-eq-nil : {A : Type 0} (xs ys : List A) → xs ++ ys ≡ [] → (xs ≡ []) × (ys ≡ [])
append-eq-nil [] ys h = (refl, h)
append-eq-nil (x ∷ xs) ys h = absurd (cc)

reject-eq-none : (kind name : String) (errs : ErrorList) → reject kind name errs ≡ none → errs ≡ []
reject-eq-none kind name [] h = refl
reject-eq-none kind name (e ∷ errs) h = absurd (cc)

error_if-eq-nil : (b : Bool) (e : FieldError) → error_if b e ≡ [] → b ≡ false
error_if-eq-nil b e h = ground arith

module _ (c : Schema) where
  -- What a pool that the webhook accepted can rely on.
  pub record IsAccepted (p : Pool) : Type 0 where
    pub selects : selects_nothing p.spec.selector ≡ false
    pub selector : c.Selector
    pub parses : c.as_selector p.spec.selector ≡ some selector
    pub matches : (c.is_empty selector || c.matches selector p.spec.template.metadata.labels) ≡ true

  template_accepted :
      (o : Option c.Selector) (spec : PoolSpec) (at : FieldPath)
      → validate_template c o spec at ≡ []
      → (sel : c.Selector) × (o ≡ some sel)
        × ((c.is_empty sel || c.matches sel spec.template.metadata.labels) ≡ true)
  unfolding validate_pvc_template
  template_accepted none spec at h = absurd (cc)
  template_accepted (some sel) spec at h =
      let (_, h1) = append-eq-nil (c.validate_labels spec.template.metadata.labels _) _ h in
      let (_, h2) =
        append-eq-nil (c.validate_annotations spec.template.metadata.annotations _) _ h1 in
      (sel, refl, ground arith)

  init_job_accepted :
      (o : Option MountJob) (at : FieldPath) (j : MountJob)
      → validate_init_job o at ≡ []
      → o ≡ some j
      → (p : FieldPath) × (validate_mount_job j p ≡ [])
  init_job_accepted none at j h e = absurd (cc)
  init_job_accepted (some i) at j h e = (at ++ "initJob" ∷ [], rw (some-eq e) at h)
    where
      some-eq : {i j : MountJob} → ◌≡◌ {A = Option MountJob} (some i) (some j) → i ≡ j
      some-eq e = cc

  -- A pool whose creation is accepted has a selector that selects something and parses, and its
  -- template carries the labels that the selector asks for, if it asks for any.
  pub pool_create-IsAccepted : (p : Pool) → pool_create c p ≡ none → IsAccepted p
  unfolding pool_create validate_pool_spec
  pool_create-IsAccepted p h =
      let h0 = reject-eq-none "Pool" p.key.name _ h in
      let (_, h1) = append-eq-nil (c.validate_label_selector p.spec.selector _) _ h0 in
      let (h2, h3) = append-eq-nil (error_if (selects_nothing p.spec.selector) _) _ h1 in
      let (h4, h5) =
        append-eq-nil (validate_template c (c.as_selector p.spec.selector) p.spec _) _ h3 in
      let (sel, e, m) = template_accepted (c.as_selector p.spec.selector) p.spec ("spec" ∷ []) h4 in
      record {
        selects = error_if-eq-nil (selects_nothing p.spec.selector) _ h2;
        selector = sel;
        parses = e;
        matches = m;
      }

  -- The spec of the init job that the controller makes for any claim of a pool whose creation was
  -- accepted is the pool's: containers, backoff limit and all that has no limit are the same, the
  -- pods never restart, and the deadline is the pool's or, if it asks for none, 300 seconds. The
  -- volume that the pool names is found in the job with the claim in it, as it was otherwise, or is
  -- new; any other name finds the volume that it finds in the pool's template.
  pub pool_create-RunsAsAsked :
      (p : Pool) (j : MountJob) (claim : String)
      → pool_create c p ≡ none
      → p.spec.init_job ≡ some j
      → RunsAsAsked j claim (configure_job (some j) claim)
  unfolding pool_create validate_pool_spec
  pool_create-RunsAsAsked p j claim h ej =
      let h0 = reject-eq-none "Pool" p.key.name _ h in
      let (_, h1) = append-eq-nil (c.validate_label_selector p.spec.selector _) _ h0 in
      let (_, h3) = append-eq-nil (error_if (selects_nothing p.spec.selector) _) _ h1 in
      let (_, h5) =
        append-eq-nil (validate_template c (c.as_selector p.spec.selector) p.spec _) _ h3 in
      let (at, v) = init_job_accepted p.spec.init_job ("spec" ∷ []) j h5 ej in
      accepted_job j at claim v
