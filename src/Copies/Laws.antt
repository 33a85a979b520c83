-- ===== src/Copies/Laws.antt =====
-- The deep copies of pools and checkouts (zz_generated.deepcopy.go) share no memory with the
-- original.
use pvpool.Prelude.{◌≡◌, refl}
use pvpool.Copies.Memory.{Parts, Library}
use pvpool.Copies.DeepCopy.{
  int32s, modes_kind, pool_conditions_kind, checkout_conditions_kind, mount_job_kind, pools_kind,
  checkouts_kind, copy_condition, copy_pool_condition, copy_checkout_condition, copy_claim_template,
  copy_job_template, copy_mount_job, copy_pool_spec, copy_pool_status, copy_pool,
  copy_checkout_spec, copy_checkout_status, copy_checkout, copy_pool_list, copy_checkout_list,
}
use pvpool.Copies.Rules.{Copies, plain-Copies, Both-Copies, struct-Copies, elements-Copies}
use pvpool.Copies.Shapes.{pointer-Copies, slice-Copies}
use pvpool.Copies.Values.{
  Views, ConditionAt, PoolConditionAt, CheckoutConditionAt, ClaimTemplateAt, JobTemplateAt,
  MountJobAt, PoolSpecAt, PoolStatusAt, PoolAt, CheckoutSpecAt, CheckoutStatusAt, CheckoutAt,
  PoolListAt, CheckoutListAt,
}

module _ (p : Parts) where
  -- The third-party copies do what a deep copy is documented to do.
  pub record LibraryLaws (vs : Views p) (l : Library p) : Type 0 where
    pub meta-Copies : Copies p l.meta vs.meta
    pub list_meta-Copies : Copies p l.list_meta vs.list_meta
    pub time-Copies : Copies p l.time vs.time
    pub selector-Copies : Copies p l.selector vs.selector
    pub claim_spec-Copies : Copies p l.claim_spec vs.claim_spec
    pub job_spec-Copies : Copies p l.job_spec vs.job_spec

  module _ (vs : Views p) where
    module _ (l : Library p) (laws : LibraryLaws vs l) where
      condition-Copies : Copies p (copy_condition p l) (ConditionAt p vs)
      condition-Copies =
          struct-Copies p (λ c. c.changed) (λ t c. record c { changed = t }) (λ v. v.changed)
            (λ c v. (c.status ≡ v.status) × (c.reason ≡ v.reason) × (c.message ≡ v.message))
            (λ _ _. refl) (λ _ _ _ h. h) laws.time-Copies

      pool_condition-Copies : Copies p (copy_pool_condition p l) (PoolConditionAt p vs)
      pool_condition-Copies =
          struct-Copies p (λ c. c.condition) (λ t c. record c { condition = t }) (λ v. v.condition)
            (λ c v. c.kind ≡ v.kind) (λ _ _. refl) (λ _ _ _ h. h) condition-Copies

      checkout_condition-Copies : Copies p (copy_checkout_condition p l) (CheckoutConditionAt p vs)
      checkout_condition-Copies =
          struct-Copies p (λ c. c.condition) (λ t c. record c { condition = t }) (λ v. v.condition)
            (λ c v. c.kind ≡ v.kind) (λ _ _. refl) (λ _ _ _ h. h) condition-Copies

      claim_template-Copies : Copies p (copy_claim_template p l) (ClaimTemplateAt p vs)
      claim_template-Copies =
          struct-Copies p (λ t. (t.metadata, t.spec))
            (λ x t. record t { metadata = x.0; spec = x.1 }) (λ v. (v.metadata, v.spec))
            (λ _ _. Unit {0}) (λ _ _. refl) (λ _ _ _ h. h)
            (Both-Copies p laws.meta-Copies laws.claim_spec-Copies)

      job_template-Copies : Copies p (copy_job_template p l) (JobTemplateAt p vs)
      job_template-Copies =
          struct-Copies p (λ t. (t.metadata, t.spec))
            (λ x t. record t { metadata = x.0; spec = x.1 }) (λ v. (v.metadata, v.spec))
            (λ _ _. Unit {0}) (λ _ _. refl) (λ _ _ _ h. h)
            (Both-Copies p laws.meta-Copies laws.job_spec-Copies)

      mount_job-Copies : Copies p (copy_mount_job p l) (MountJobAt p vs)
      mount_job-Copies =
          struct-Copies p (λ j. j.template) (λ t j. record j { template = t }) (λ v. v.template)
            (λ j v. j.volume_name ≡ v.volume_name) (λ _ _. refl) (λ _ _ _ h. h) job_template-Copies

      pool_spec-Copies : Copies p (copy_pool_spec p l) (PoolSpecAt p vs)
      pool_spec-Copies =
          struct-Copies p (λ s. (s.replicas, (s.selector, (s.template, s.init_job))))
            (λ x s. record s {
              replicas = x.0;
              selector = x.1.0;
              template = x.1.1.0;
              init_job = x.1.1.1;
            })
            (λ v. (v.replicas, (v.selector, (v.template, v.init_job)))) (λ _ _. Unit {0})
            (λ _ _. refl) (λ _ _ _ h. h)
            (Both-Copies p (pointer-Copies p (int32s p) (plain-Copies p) λ _. refl) (
              Both-Copies p laws.selector-Copies (
                Both-Copies p claim_template-Copies
                  (pointer-Copies p (mount_job_kind p) mount_job-Copies λ _. refl))))

      pool_status-Copies : Copies p (copy_pool_status p l) (PoolStatusAt p vs)
      pool_status-Copies =
          struct-Copies p (λ s. s.conditions) (λ c s. record s { conditions = c })
            (λ v. v.conditions)
            (λ s v.
              (s.observed_generation ≡ v.observed_generation)
              × (s.replicas ≡ v.replicas)
              × (s.available_replicas ≡ v.available_replicas))
            (λ _ _. refl) (λ _ _ _ h. h)
            (slice-Copies p (pool_conditions_kind p) (elements-Copies p pool_condition-Copies)
              λ _. refl)

      pub pool-Copies : Copies p (copy_pool p l) (PoolAt p vs)
      pool-Copies =
          struct-Copies p (λ x. (x.metadata, (x.spec, x.status)))
            (λ y x. record x { metadata = y.0; spec = y.1.0; status = y.1.1 }) (λ v. v)
            (λ _ _. Unit {0}) (λ _ _. refl) (λ _ _ _ h. h)
            (Both-Copies p laws.meta-Copies (Both-Copies p pool_spec-Copies pool_status-Copies))

      checkout_spec-Copies : Copies p (copy_checkout_spec p l) (CheckoutSpecAt p vs)
      checkout_spec-Copies =
          struct-Copies p (λ s. s.access_modes) (λ m s. record s { access_modes = m })
            (λ v. v.access_modes) (λ s v. (s.pool_ref ≡ v.pool_ref) × (s.claim_name ≡ v.claim_name))
            (λ _ _. refl) (λ _ _ _ h. h) (slice-Copies p (modes_kind p) (plain-Copies p) λ _. refl)

      checkout_status-Copies : Copies p (copy_checkout_status p l) (CheckoutStatusAt p vs)
      checkout_status-Copies =
          struct-Copies p (λ s. s.conditions) (λ c s. record s { conditions = c })
            (λ v. v.conditions)
            (λ s v. (s.volume_name ≡ v.volume_name) × (s.volume_claim_ref ≡ v.volume_claim_ref))
            (λ _ _. refl) (λ _ _ _ h. h)
            (slice-Copies p (checkout_conditions_kind p)
              (elements-Copies p checkout_condition-Copies) λ _. refl)

      pub checkout-Copies : Copies p (copy_checkout p l) (CheckoutAt p vs)
      checkout-Copies =
          struct-Copies p (λ x. (x.metadata, (x.spec, x.status)))
            (λ y x. record x { metadata = y.0; spec = y.1.0; status = y.1.1 }) (λ v. v)
            (λ _ _. Unit {0}) (λ _ _. refl) (λ _ _ _ h. h)
            (Both-Copies p laws.meta-Copies
              (Both-Copies p checkout_spec-Copies checkout_status-Copies))

      pub pool_list-Copies : Copies p (copy_pool_list p l) (PoolListAt p vs)
      pool_list-Copies =
          struct-Copies p (λ x. (x.metadata, x.items))
            (λ y x. record x { metadata = y.0; items = y.1 }) (λ v. v) (λ _ _. Unit {0})
            (λ _ _. refl) (λ _ _ _ h. h)
            (Both-Copies p laws.list_meta-Copies
              (slice-Copies p (pools_kind p) (elements-Copies p pool-Copies) λ _. refl))

      pub checkout_list-Copies : Copies p (copy_checkout_list p l) (CheckoutListAt p vs)
      checkout_list-Copies =
          struct-Copies p (λ x. (x.metadata, x.items))
            (λ y x. record x { metadata = y.0; items = y.1 }) (λ v. v) (λ _ _. Unit {0})
            (λ _ _. refl) (λ _ _ _ h. h)
            (Both-Copies p laws.list_meta-Copies
              (slice-Copies p (checkouts_kind p) (elements-Copies p checkout-Copies) λ _. refl))
