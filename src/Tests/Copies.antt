-- ===== src/Tests/Copies.antt =====
-- A pool in a small memory, and its deep copy.
use pvpool.Prelude.{refl, none, some, [], ◌∷◌, set, arith, pos}
use pvpool.Api.Core.{ObjectMeta, empty_meta, LabelSelector, PvcSpec, JobSpec, Dict, Time, is_true}
use pvpool.Api.Resources.{Condition, settlement, new_pool, new_checkout}
use pvpool.Copies.Memory.{
  Parts, Heap, Library, int32, pool_conditions, access_modes, pool, checkout, MemPool, MemCheckout,
  MemCondition,
}
use pvpool.Copies.DeepCopy.{plain, pool_kind, checkout_kind, deep_copy_pool, deep_copy_checkout}
use pvpool.Copies.Rules.{Exactly, plain-Copies}
use pvpool.Copies.Shapes.{AtPlace}
use pvpool.Copies.Values.{Views, PoolObject, CheckoutObject, PoolAt, CheckoutAt}
use pvpool.Copies.Laws.{LibraryLaws}
use pvpool.Copies.Apart.{write-deep_copy_pool, write-deep_copy_checkout}
use pvpool.Tests.Pools.{key_of}

-- Third-party structs that are values, and have nothing to point to.
abbrev values : Parts
values = record {
  Meta = ObjectMeta;
  ListMeta = Dict;
  Time = Time;
  Selector = LabelSelector;
  ClaimSpec = PvcSpec;
  JobSpec = JobSpec;
  Foreign = Unit {0};
}

abbrev copiers : Library values
copiers = record {
  meta = plain values;
  list_meta = plain values;
  time = plain values;
  selector = plain values;
  claim_spec = plain values;
  job_spec = plain values;
}

abbrev views : Views values
views = record {
  meta = Exactly values;
  list_meta = Exactly values;
  time = Exactly values;
  selector = Exactly values;
  claim_spec = Exactly values;
  job_spec = Exactly values;
}

copiers-LibraryLaws : LibraryLaws values views copiers
copiers-LibraryLaws = record {
  meta-Copies = plain-Copies values;
  list_meta-Copies = plain-Copies values;
  time-Copies = plain-Copies values;
  selector-Copies = plain-Copies values;
  claim_spec-Copies = plain-Copies values;
  job_spec-Copies = plain-Copies values;
}

abbrev settled : Condition
settled = record { status = is_true; changed = 5; reason = "Settled"; message = "" }

abbrev mem_settled : MemCondition values
mem_settled = record { status = is_true; changed = 5; reason = "Settled"; message = "" }

abbrev mem_pool : MemPool values
mem_pool = record {
  metadata = empty_meta;
  spec = record {
    replicas = some 0;
    selector = record { match_labels = []; match_expressions = [] };
    template = record { metadata = empty_meta; spec = (new_pool (key_of "")).spec.template.spec };
    init_job = none;
  };
  status = record {
    observed_generation = 1;
    replicas = pos 3;
    available_replicas = pos 2;
    conditions = some 1;
  };
}

abbrev mem_checkout : MemCheckout values
mem_checkout = record {
  metadata = empty_meta;
  spec = record {
    pool_ref = record { namespace = ""; name = "pool" };
    claim_name = "data";
    access_modes = some 3;
  };
  status = record { volume_name = ""; volume_claim_ref = ""; conditions = none };
}

-- The request, the conditions, the pool, the access modes and a checkout.
abbrev memory : Heap values
memory =
    int32 (pos 3)
    ∷ pool_conditions (record { condition = mem_settled; kind = settlement } ∷ [])
    ∷ pool mem_pool
    ∷ access_modes ("ReadWriteOnce" ∷ [])
    ∷ checkout mem_checkout
    ∷ []

abbrev pool_value : PoolObject values views
pool_value = (
  empty_meta,
  (
    record ((new_pool (key_of "")).spec) { replicas = some (pos 3) },
    record {
      observed_generation = 1;
      replicas = pos 3;
      available_replicas = pos 2;
      conditions = record { condition = settled; kind = settlement } ∷ [];
    },
  ),
)

pool_there :
    AtPlace values (pool_kind values) (PoolAt values views) memory (some 2) (some pool_value)
pool_there = (
  mem_pool,
  refl,
  (
    (
      refl,
      (
        (((pos 3, refl, refl), (refl, (((refl, refl), tt), tt))), tt),
        (
          record {
            o = some (record { condition = settled; kind = settlement } ∷ []);
            is_there = (
              record { condition = mem_settled; kind = settlement } ∷ [],
              refl,
              (((refl, (refl, refl, refl)), refl), tt),
            );
            is_l = refl;
          },
          (refl, refl, refl),
        ),
      ),
    ),
    tt,
  ),
)

-- The request of the original is written, and a new cell.
write-deep_copy_pool_example :
    let (copy, h') = deep_copy_pool values copiers (some 2) memory in
    AtPlace values
      (pool_kind values)
      (PoolAt values views)
      (set h' 0 (int32 (pos 9)))
      copy
      (some pool_value)
    × AtPlace values
        (pool_kind values)
        (PoolAt values views)
        (set h' 5 (int32 (pos 9)))
        (some 2)
        (some pool_value)
write-deep_copy_pool_example =
    write-deep_copy_pool values views copiers copiers-LibraryLaws (some 2) pool_value memory
      pool_there 0 5 (int32 (pos 9)) (int32 (pos 9)) (omega arith) (omega arith)

abbrev checkout_value : CheckoutObject values views
checkout_value = (
  empty_meta,
  (
    record {
      pool_ref = record { namespace = ""; name = "pool" };
      claim_name = "data";
      access_modes = "ReadWriteOnce" ∷ [];
    },
    (new_checkout (key_of "")).status,
  ),
)

checkout_there :
    AtPlace values
      (checkout_kind values)
      (CheckoutAt values views)
      memory
      (some 4)
      (some checkout_value)
checkout_there = (
  mem_checkout,
  refl,
  (
    (
      refl,
      (
        (
          record {
            o = some ("ReadWriteOnce" ∷ []);
            is_there = ("ReadWriteOnce" ∷ [], refl, refl);
            is_l = refl;
          },
          (refl, refl),
        ),
        (record { o = none; is_there = tt; is_l = refl }, (refl, refl)),
      ),
    ),
    tt,
  ),
)

-- The access modes of the original are written, and those of the copy.
write-deep_copy_checkout_example :
    let (copy, h') = deep_copy_checkout values copiers (some 4) memory in
    AtPlace values
      (checkout_kind values)
      (CheckoutAt values views)
      (set h' 3 (access_modes []))
      copy
      (some checkout_value)
    × AtPlace values
        (checkout_kind values)
        (CheckoutAt values views)
        (set h' 5 (access_modes []))
        (some 4)
        (some checkout_value)
write-deep_copy_checkout_example =
    write-deep_copy_checkout values views copiers copiers-LibraryLaws (some 4) checkout_value memory
      checkout_there 3 5 (access_modes []) (access_modes []) (omega arith) (omega arith)
