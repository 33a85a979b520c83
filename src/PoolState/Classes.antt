-- ===== src/PoolState/Classes.antt =====
-- Which lists Load of PoolState puts replicas in.
use pvpool.Prelude.{
  zero, suc, arith, eq_iff, ◌⊎◌, Option-cases, Option, none, some, text_at, if◌then◌else◌, ◌≡◌,
  refl, true, false, List, [], ◌∷◌, All, All-append, String, Bool-cases, inl, inr,
}
use pvpool.Exec.{pure, modify}
use pvpool.Exec.Rules.{Keeps-bind, Keeps-continue}
use pvpool.Api.Core.{Key, Pv, Time, ClaimPhase, lost}
use pvpool.Api.State.{PoolReplica, PoolState}
use pvpool.Kube.{Kube}
use pvpool.Replica
use pvpool.Replica.Phase.{phase_key, is_zero_time, is_lost, is_stale, is_available}
use pvpool.PoolState.Slots.{Slot, initializing, available, stale, slot_of, push, call}
use pvpool.PoolState.Load.{is_other, place, load_key, load_keys, load}

module _ (k : Kube) where
  -- The claim is being deleted or lost, or the init job failed.
  abbrev IsDoomed : PoolReplica → Type 0
  IsDoomed r =
      ((t : Time) × (r.claim.metadata.deleted ≡ some (suc t)))
      ⊎ ((r.claim.phase ≡ lost) ⊎ (k.failed r.init_job ≡ true))

  -- There is a volume, and the claim's annotation says that it is available.
  abbrev IsPrepared : PoolReplica → Type 0
  IsPrepared r =
      ((v : Pv) × (r.volume ≡ some v))
      × (text_at "pvpool.puppet.com/replica.phase" r.claim.metadata.annotations ≡ "Available")

  abbrev InSlot : Slot → PoolReplica → Type 0
  InSlot stale r = IsDoomed r
  InSlot available r = (¬ IsDoomed r) × IsPrepared r
  InSlot initializing r = (¬ IsDoomed r) × (¬ IsPrepared r)

  -- A replica's list is that of its claim, its volume and its job, and no other controller owns its
  -- claim.
  abbrev pub BelongsIn : String → Slot → PoolReplica → Type 0
  BelongsIn uid slot r = InSlot slot r × (is_other uid (k.controller_of r.claim.metadata) ≡ false)

  is_deleted :
      (o : Option Time)
      → is_zero_time o ≡ false
      → (t : Time) × (◌≡◌ {A = Option Time} o (some (suc t)))
  is_deleted none h = absurd (cc)
  is_deleted (some zero) h = absurd (cc)
  is_deleted (some (suc t)) h = (t, refl)

  is_lost_lem : (p : ClaimPhase) → is_lost p ≡ true → p ≡ lost
  is_lost_lem p h = ground arith

  stale-IsDoomed : (r : PoolReplica) → is_stale k r ≡ true → IsDoomed r
  unfolding is_stale
  stale-IsDoomed r h = elim (Bool-cases (is_zero_time r.claim.metadata.deleted)) [
    | inr gone ↦ inl (is_deleted r.claim.metadata.deleted gone)
    | inl here ↦ elim (Bool-cases (is_lost r.claim.phase)) [
      | inl no_volume ↦ inr (inl (is_lost_lem r.claim.phase no_volume))
      | inr some_phase ↦ inr (inr (rw (here, some_phase) at h))
    ]
  ]

  not-IsDoomed : (r : PoolReplica) → is_stale k r ≡ false → ¬ IsDoomed r
  unfolding is_stale
  not-IsDoomed r h (inl (t, e)) = absurd (ground arith)
  not-IsDoomed r h (inr (inl e)) = absurd (ground arith)
  not-IsDoomed r h (inr (inr e)) = absurd (ground arith)

  available-IsPrepared : (r : PoolReplica) → is_available r ≡ true → IsPrepared r
  unfolding is_available
  available-IsPrepared r h = elim (Option-cases r.volume) [
    | inl missing ↦ absurd (ground arith)
    | inr (v, e) ↦ (
      (v, e),
      ground (arith, eq_iff (text_at phase_key r.claim.metadata.annotations) "Available"),
    )
  ]

  not-IsPrepared : (r : PoolReplica) → is_available r ≡ false → ¬ IsPrepared r
  unfolding is_available
  not-IsPrepared r h ((v, e), f) =
      absurd (ground (arith, eq_iff (text_at phase_key r.claim.metadata.annotations) "Available"))

  slot_of-InSlot : (r : PoolReplica) → InSlot (slot_of k r) r
  slot_of-InSlot r = elim (Bool-cases (is_stale k r)) [
    | inl doomed ↦ rw doomed (stale-IsDoomed r doomed)
    | inr fresh ↦ elim (Bool-cases (is_available r)) [
      | inl ready ↦ rw (fresh, ready) (not-IsDoomed r fresh, available-IsPrepared r ready)
      | inr waits ↦ rw (fresh, waits) (not-IsDoomed r fresh, not-IsPrepared r waits)
    ]
  ]

  pub record IsClassified (ps : PoolState) : Type 0 where
    pub of_initializing : All (BelongsIn ps.pool.metadata.uid initializing) ps.initializing
    pub of_available : All (BelongsIn ps.pool.metadata.uid available) ps.available
    pub of_stale : All (BelongsIn ps.pool.metadata.uid stale) ps.stale

  push-IsClassified :
      (slot : Slot) (r : PoolReplica) (ps : PoolState)
      → BelongsIn ps.pool.metadata.uid slot r
      → IsClassified ps
      → IsClassified (push slot r ps)
  push-IsClassified initializing r ps b h = record {
    of_initializing = All-append _ ps.initializing (r ∷ []) h.of_initializing (b, tt);
    of_available = h.of_available;
    of_stale = h.of_stale;
  }
  push-IsClassified available r ps b h = record {
    of_initializing = h.of_initializing;
    of_available = All-append _ ps.available (r ∷ []) h.of_available (b, tt);
    of_stale = h.of_stale;
  }
  push-IsClassified stale r ps b h = record {
    of_initializing = h.of_initializing;
    of_available = h.of_available;
    of_stale = All-append _ ps.stale (r ∷ []) h.of_stale (b, tt);
  }

  place-IsClassified :
      (r : PoolReplica) (ps : PoolState) → IsClassified ps → IsClassified (place k r ps)
  unfolding place
  place-IsClassified r ps h =
      elim (Bool-cases (is_other ps.pool.metadata.uid (k.controller_of r.claim.metadata))) [
        | inl other ↦ rw other h
        | inr own ↦ rw own (push-IsClassified (slot_of k r) r ps (slot_of-InSlot r, own) h)
      ]

  load_key-IsClassified :
      (key : Key) (s : k.World × PoolState) → IsClassified s.1 → IsClassified (load_key k key s).1.1
  unfolding load_key
  load_key-IsClassified key s h =
      let (res, d) = Replica.load k (s.0, Replica.new_replica k key) in
      Keeps-continue {E = k.Error} {S = k.World × PoolState} (λ t. IsClassified t.1) res
        (λ found. if found then modify (λ t. (t.0, place k d.1 t.1)) else pure tt) (d.0, s.1) h
        elim [ true ↦ place-IsClassified d.1 s.1 h | false ↦ h ]

  load_keys-IsClassified :
      (keys : List Key) (s : k.World × PoolState)
      → IsClassified s.1
      → IsClassified (load_keys k keys s).1.1
  unfolding load_keys
  load_keys-IsClassified [] s h = h
  load_keys-IsClassified (key ∷ keys) s h =
      Keeps-bind (λ t. IsClassified t.1) (load_key k key) (λ _. load_keys k keys) s
        (load_key-IsClassified key s h) (λ _ t. load_keys-IsClassified keys t)

  -- Load, however it ends, leaves the three lists sorted, if they were so before: the claim of a
  -- stale replica is being deleted or lost or its init job failed; of the others, the available
  -- replicas are just those that have a volume and whose claim is annotated as available; and no
  -- other controller owns the claim of any of them.
  pub load-IsClassified : (s : k.World × PoolState) → IsClassified s.1 → IsClassified (load k s).1.1
  unfolding load
  load-IsClassified s h =
      Keeps-bind (λ t. IsClassified t.1) (λ t. (k.as_selector s.1.pool.spec.selector, t)) _ s h
        λ selector t ht.
          Keeps-bind (λ t. IsClassified t.1) (call k (k.list_pvcs s.1.pool.key.namespace selector))
            _ t ht
            λ keys u hu.
              Keeps-bind (λ t. IsClassified t.1) (load_keys k keys) (λ _. pure true)
                (u.0, record u.1 { initializing = []; available = []; stale = [] })
                (load_keys-IsClassified keys _
                  (record { of_initializing = tt; of_available = tt; of_stale = tt }))
                λ _ v hv. hv
