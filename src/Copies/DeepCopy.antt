-- ===== src/Copies/DeepCopy.antt =====
-- Each DeepCopyInto, as a function of the struct and the memory to the copied struct and the memory
-- with what was allocated for it. The array of a slice is allocated when its elements are copied.
use pvpool.Prelude.{ℕ, Option, none, some, List, [], ◌∷◌, ◌++◌, length, get_elem?, ℤ}
use pvpool.Api.Core.{AccessMode}
use pvpool.Copies.Memory.{
  Place, Parts, Cell, Heap, Copy, Library, int32, access_modes, pool_conditions,
  checkout_conditions, mount_job, pool, checkout, pools, checkouts, MemCondition, MemPoolCondition,
  MemCheckoutCondition, MemClaimTemplate, MemJobTemplate, MemMountJob, MemPoolSpec, MemPoolStatus,
  MemPool, MemCheckoutSpec, MemCheckoutStatus, MemCheckout, MemPoolList, MemCheckoutList,
}

module _ (p : Parts) where
  -- The kind of cell for a type: how to make one, and how to read it.
  pub record Kind (A : Type 0) : Type 0 where
    pub make : A → Cell p
    pub read : Cell p → Option A

  abbrev pub alloc : Cell p → Heap p → ℕ × Heap p
  alloc c h = (length h, h ++ c ∷ [])

  -- What is at a place; a place of another kind has nothing of this one.
  abbrev pub load_cell : {A : Type 0} → Kind A → Heap p → ℕ → Option A
  load_cell kind h i = elim (get_elem? h i) [ none ↦ none | some c ↦ kind.read c ]

  -- `if in.X != nil { ... *out = new(T); (*in).DeepCopyInto(*out) }`, and DeepCopy.
  abbrev pub move_to : {A : Type 0} → Kind A → A × Heap p → Place × Heap p
  move_to kind (a, h) = let (i, h') = alloc (kind.make a) h in (some i, h')

  abbrev pub copy_found : {A : Type 0} → Kind A → Copy p A → Option A → Heap p → Place × Heap p
  copy_found kind f none h = (none, h)
  copy_found kind f (some a) h = move_to kind (f a h)

  abbrev pub pointer : {A : Type 0} → Kind A → Copy p A → Copy p Place
  pointer kind f none h = (none, h)
  pointer kind f (some i) h = copy_found kind f (load_cell kind h i) h

  -- `for i := range *in { (*in)[i].DeepCopyInto(&(*out)[i]) }`
  abbrev pub elements : {A : Type 0} → Copy p A → Copy p (List A)
  elements f [] h = ([], h)
  elements f (a ∷ l) h = let (b, h1) = f a h in let (m, h2) = elements f l h1 in (b ∷ m, h2)

  -- A plain copy, `copy(*out, *in)` or `**out = **in`.
  abbrev pub plain : {A : Type 0} → Copy p A
  plain a h = (a, h)

  abbrev pub int32s : Kind ℤ
  int32s = record { make = int32; read = λ c. elim c [ int32 n ↦ some n | _ ↦ none ] }

  abbrev pub modes_kind : Kind (List AccessMode)
  modes_kind = record {
    make = access_modes;
    read = λ c. elim c [ access_modes l ↦ some l | _ ↦ none ];
  }

  abbrev pub pool_conditions_kind : Kind (List (MemPoolCondition p))
  pool_conditions_kind = record {
    make = pool_conditions;
    read = λ c. elim c [ pool_conditions l ↦ some l | _ ↦ none ];
  }

  abbrev pub checkout_conditions_kind : Kind (List (MemCheckoutCondition p))
  checkout_conditions_kind = record {
    make = checkout_conditions;
    read = λ c. elim c [ checkout_conditions l ↦ some l | _ ↦ none ];
  }

  abbrev pub mount_job_kind : Kind (MemMountJob p)
  mount_job_kind = record {
    make = mount_job;
    read = λ c. elim c [ mount_job j ↦ some j | _ ↦ none ];
  }

  abbrev pub pool_kind : Kind (MemPool p)
  pool_kind = record { make = pool; read = λ c. elim c [ pool x ↦ some x | _ ↦ none ] }

  abbrev pub checkout_kind : Kind (MemCheckout p)
  checkout_kind = record { make = checkout; read = λ c. elim c [ checkout x ↦ some x | _ ↦ none ] }

  abbrev pub pools_kind : Kind (List (MemPool p))
  pools_kind = record { make = pools; read = λ c. elim c [ pools l ↦ some l | _ ↦ none ] }

  abbrev pub checkouts_kind : Kind (List (MemCheckout p))
  checkouts_kind = record {
    make = checkouts;
    read = λ c. elim c [ checkouts l ↦ some l | _ ↦ none ];
  }

  module _ (l : Library p) where
    abbrev pub copy_condition : Copy p (MemCondition p)
    copy_condition c h =
        let (changed, h1) = l.time c.changed h in (record c { changed = changed }, h1)

    abbrev pub copy_pool_condition : Copy p (MemPoolCondition p)
    copy_pool_condition c h =
        let (condition, h1) = copy_condition c.condition h in
        (record c { condition = condition }, h1)

    abbrev pub copy_checkout_condition : Copy p (MemCheckoutCondition p)
    copy_checkout_condition c h =
        let (condition, h1) = copy_condition c.condition h in
        (record c { condition = condition }, h1)

    abbrev pub copy_claim_template : Copy p (MemClaimTemplate p)
    copy_claim_template t h =
        let (metadata, h1) = l.meta t.metadata h in
        let (spec, h2) = l.claim_spec t.spec h1 in
        (record t { metadata = metadata; spec = spec }, h2)

    abbrev pub copy_job_template : Copy p (MemJobTemplate p)
    copy_job_template t h =
        let (metadata, h1) = l.meta t.metadata h in
        let (spec, h2) = l.job_spec t.spec h1 in (record t { metadata = metadata; spec = spec }, h2)

    abbrev pub copy_mount_job : Copy p (MemMountJob p)
    copy_mount_job j h =
        let (template, h1) = copy_job_template j.template h in
        (record j { template = template }, h1)

    abbrev pub copy_pool_spec : Copy p (MemPoolSpec p)
    copy_pool_spec s h =
        let (replicas, h1) = pointer int32s plain s.replicas h in
        let (selector, h2) = l.selector s.selector h1 in
        let (template, h3) = copy_claim_template s.template h2 in
        let (init_job, h4) = pointer mount_job_kind copy_mount_job s.init_job h3 in
        (
          record s {
            replicas = replicas;
            selector = selector;
            template = template;
            init_job = init_job;
          },
          h4,
        )

    abbrev pub copy_pool_status : Copy p (MemPoolStatus p)
    copy_pool_status s h =
        let (conditions, h1) =
          pointer pool_conditions_kind (elements copy_pool_condition) s.conditions h in
        (record s { conditions = conditions }, h1)

    abbrev pub copy_pool : Copy p (MemPool p)
    copy_pool x h =
        let (metadata, h1) = l.meta x.metadata h in
        let (spec, h2) = copy_pool_spec x.spec h1 in
        let (status, h3) = copy_pool_status x.status h2 in
        (record x { metadata = metadata; spec = spec; status = status }, h3)

    abbrev pub copy_checkout_spec : Copy p (MemCheckoutSpec p)
    copy_checkout_spec s h =
        let (modes, h1) = pointer modes_kind plain s.access_modes h in
        (record s { access_modes = modes }, h1)

    abbrev pub copy_checkout_status : Copy p (MemCheckoutStatus p)
    copy_checkout_status s h =
        let (conditions, h1) =
          pointer checkout_conditions_kind (elements copy_checkout_condition) s.conditions h in
        (record s { conditions = conditions }, h1)

    abbrev pub copy_checkout : Copy p (MemCheckout p)
    copy_checkout x h =
        let (metadata, h1) = l.meta x.metadata h in
        let (spec, h2) = copy_checkout_spec x.spec h1 in
        let (status, h3) = copy_checkout_status x.status h2 in
        (record x { metadata = metadata; spec = spec; status = status }, h3)

    abbrev pub copy_pool_list : Copy p (MemPoolList p)
    copy_pool_list x h =
        let (metadata, h1) = l.list_meta x.metadata h in
        let (items, h2) = pointer pools_kind (elements copy_pool) x.items h1 in
        (record x { metadata = metadata; items = items }, h2)

    abbrev pub copy_checkout_list : Copy p (MemCheckoutList p)
    copy_checkout_list x h =
        let (metadata, h1) = l.list_meta x.metadata h in
        let (items, h2) = pointer checkouts_kind (elements copy_checkout) x.items h1 in
        (record x { metadata = metadata; items = items }, h2)

    -- DeepCopy and DeepCopyObject of a pool and of a checkout; a nil object is copied to nil.
    unfoldable pub deep_copy_pool : Copy p Place
    deep_copy_pool = pointer pool_kind copy_pool

    unfoldable pub deep_copy_checkout : Copy p Place
    deep_copy_checkout = pointer checkout_kind copy_checkout

    abbrev pub deep_copy_pool_object : Copy p Place
    deep_copy_pool_object place h =
        let (copy, h1) = deep_copy_pool place h in (elim copy [ none ↦ none | some i ↦ some i ], h1)

    abbrev pub deep_copy_checkout_object : Copy p Place
    deep_copy_checkout_object place h =
        let (copy, h1) = deep_copy_checkout place h in
        (elim copy [ none ↦ none | some i ↦ some i ], h1)
