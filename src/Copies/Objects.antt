-- ===== src/Copies/Objects.antt =====
-- DeepCopy of the API types and of the validators besides pools and checkouts, and DeepCopyObject of
-- the lists and validators (zz_generated.deepcopy.go). `if in == nil`, `new`, DeepCopyInto: each is
-- the copy of a pointer.
use pvpool.Prelude.{none, some, refl}
use pvpool.Api.Resources.{PoolReference}
use pvpool.Copies.Memory.{
  Place, Parts, Heap, Copy, Library, condition, pool_condition, checkout_condition, claim_template,
  job_template, pool_reference, pool_spec, pool_status, checkout_spec, checkout_status, pool_list,
  checkout_list, pool_validator, checkout_validator, MemCondition, MemPoolCondition,
  MemCheckoutCondition, MemClaimTemplate, MemJobTemplate, MemPoolSpec, MemPoolStatus,
  MemCheckoutSpec, MemCheckoutStatus, MemPoolList, MemCheckoutList, MemValidator,
}
use pvpool.Copies.DeepCopy.{
  Kind, pointer, plain, mount_job_kind, copy_mount_job, copy_condition, copy_pool_condition,
  copy_checkout_condition, copy_claim_template, copy_job_template, copy_pool_spec, copy_pool_status,
  copy_checkout_spec, copy_checkout_status, copy_pool_list, copy_checkout_list,
}
use pvpool.Copies.Rules.{Copies}
use pvpool.Copies.Shapes.{AtPlace, pointer-Copies}
use pvpool.Copies.Values.{Views, PoolListAt, CheckoutListAt}
use pvpool.Copies.Laws.{LibraryLaws, pool_list-Copies, checkout_list-Copies}
use pvpool.Copies.Wrappers.{copy_pool_validator, copy_checkout_validator}

module _ (p : Parts) where
  abbrev pub condition_kind : Kind p (MemCondition p)
  condition_kind = record {
    make = condition;
    read = λ c. elim c [ condition x ↦ some x | _ ↦ none ];
  }

  abbrev pub pool_condition_kind : Kind p (MemPoolCondition p)
  pool_condition_kind = record {
    make = pool_condition;
    read = λ c. elim c [ pool_condition x ↦ some x | _ ↦ none ];
  }

  abbrev pub checkout_condition_kind : Kind p (MemCheckoutCondition p)
  checkout_condition_kind = record {
    make = checkout_condition;
    read = λ c. elim c [ checkout_condition x ↦ some x | _ ↦ none ];
  }

  abbrev pub claim_template_kind : Kind p (MemClaimTemplate p)
  claim_template_kind = record {
    make = claim_template;
    read = λ c. elim c [ claim_template x ↦ some x | _ ↦ none ];
  }

  abbrev pub job_template_kind : Kind p (MemJobTemplate p)
  job_template_kind = record {
    make = job_template;
    read = λ c. elim c [ job_template x ↦ some x | _ ↦ none ];
  }

  abbrev pub pool_reference_kind : Kind p PoolReference
  pool_reference_kind = record {
    make = pool_reference;
    read = λ c. elim c [ pool_reference x ↦ some x | _ ↦ none ];
  }

  abbrev pub pool_spec_kind : Kind p (MemPoolSpec p)
  pool_spec_kind = record {
    make = pool_spec;
    read = λ c. elim c [ pool_spec x ↦ some x | _ ↦ none ];
  }

  abbrev pub pool_status_kind : Kind p (MemPoolStatus p)
  pool_status_kind = record {
    make = pool_status;
    read = λ c. elim c [ pool_status x ↦ some x | _ ↦ none ];
  }

  abbrev pub checkout_spec_kind : Kind p (MemCheckoutSpec p)
  checkout_spec_kind = record {
    make = checkout_spec;
    read = λ c. elim c [ checkout_spec x ↦ some x | _ ↦ none ];
  }

  abbrev pub checkout_status_kind : Kind p (MemCheckoutStatus p)
  checkout_status_kind = record {
    make = checkout_status;
    read = λ c. elim c [ checkout_status x ↦ some x | _ ↦ none ];
  }

  abbrev pub pool_list_kind : Kind p (MemPoolList p)
  pool_list_kind = record {
    make = pool_list;
    read = λ c. elim c [ pool_list x ↦ some x | _ ↦ none ];
  }

  abbrev pub checkout_list_kind : Kind p (MemCheckoutList p)
  checkout_list_kind = record {
    make = checkout_list;
    read = λ c. elim c [ checkout_list x ↦ some x | _ ↦ none ];
  }

  abbrev pub pool_validator_kind : Kind p (MemValidator p)
  pool_validator_kind = record {
    make = pool_validator;
    read = λ c. elim c [ pool_validator x ↦ some x | _ ↦ none ];
  }

  abbrev pub checkout_validator_kind : Kind p (MemValidator p)
  checkout_validator_kind = record {
    make = checkout_validator;
    read = λ c. elim c [ checkout_validator x ↦ some x | _ ↦ none ];
  }

  -- DeepCopyObject, of what DeepCopy gives: a nil pointer becomes a nil object.
  abbrev pub as_object : Place × Heap p → Place × Heap p
  as_object (none, h) = (none, h)
  as_object (some i, h) = (some i, h)

  module _ (l : Library p) where
    abbrev pub deep_copy_condition : Copy p Place
    deep_copy_condition = pointer p condition_kind (copy_condition p l)

    abbrev pub deep_copy_pool_condition : Copy p Place
    deep_copy_pool_condition = pointer p pool_condition_kind (copy_pool_condition p l)

    abbrev pub deep_copy_checkout_condition : Copy p Place
    deep_copy_checkout_condition = pointer p checkout_condition_kind (copy_checkout_condition p l)

    abbrev pub deep_copy_claim_template : Copy p Place
    deep_copy_claim_template = pointer p claim_template_kind (copy_claim_template p l)

    abbrev pub deep_copy_job_template : Copy p Place
    deep_copy_job_template = pointer p job_template_kind (copy_job_template p l)

    abbrev pub deep_copy_pool_reference : Copy p Place
    deep_copy_pool_reference = pointer p pool_reference_kind (plain p)

    abbrev pub deep_copy_pool_spec : Copy p Place
    deep_copy_pool_spec = pointer p pool_spec_kind (copy_pool_spec p l)

    abbrev pub deep_copy_pool_status : Copy p Place
    deep_copy_pool_status = pointer p pool_status_kind (copy_pool_status p l)

    abbrev pub deep_copy_checkout_spec : Copy p Place
    deep_copy_checkout_spec = pointer p checkout_spec_kind (copy_checkout_spec p l)

    abbrev pub deep_copy_checkout_status : Copy p Place
    deep_copy_checkout_status = pointer p checkout_status_kind (copy_checkout_status p l)

    abbrev pub deep_copy_pool_list : Copy p Place
    deep_copy_pool_list = pointer p pool_list_kind (copy_pool_list p l)

    abbrev pub deep_copy_checkout_list : Copy p Place
    deep_copy_checkout_list = pointer p checkout_list_kind (copy_checkout_list p l)

    abbrev pub deep_copy_pool_validator : Copy p Place
    deep_copy_pool_validator = pointer p pool_validator_kind (copy_pool_validator p l)

    abbrev pub deep_copy_checkout_validator : Copy p Place
    deep_copy_checkout_validator = pointer p checkout_validator_kind (copy_checkout_validator p l)

    abbrev pub deep_copy_mount_job : Copy p Place
    deep_copy_mount_job = pointer p (mount_job_kind p) (copy_mount_job p l)

    abbrev pub deep_copy_pool_list_object : Copy p Place
    deep_copy_pool_list_object place h = as_object (deep_copy_pool_list place h)

    abbrev pub deep_copy_checkout_list_object : Copy p Place
    deep_copy_checkout_list_object place h = as_object (deep_copy_checkout_list place h)

    abbrev pub deep_copy_pool_validator_object : Copy p Place
    deep_copy_pool_validator_object place h = as_object (deep_copy_pool_validator place h)

    abbrev pub deep_copy_checkout_validator_object : Copy p Place
    deep_copy_checkout_validator_object place h = as_object (deep_copy_checkout_validator place h)

    module _ (vs : Views p) (laws : LibraryLaws p vs l) where
      -- A list of pools is copied with its items.
      pub deep_copy_pool_list-Copies :
          Copies p deep_copy_pool_list (AtPlace p pool_list_kind (PoolListAt p vs))
      deep_copy_pool_list-Copies =
          pointer-Copies p pool_list_kind (pool_list-Copies p vs l laws) λ _. refl

      -- A list of checkouts is copied with its items.
      pub deep_copy_checkout_list-Copies :
          Copies p deep_copy_checkout_list (AtPlace p checkout_list_kind (CheckoutListAt p vs))
      deep_copy_checkout_list-Copies =
          pointer-Copies p checkout_list_kind (checkout_list-Copies p vs l laws) λ _. refl
