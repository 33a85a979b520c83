-- ===== src/PoolState/Owned.antt =====
-- Which claims Pop and Delete of PoolState (pkg/controller/app/pool_state.go) leave and write.
use pvpool.Prelude.{
  ℕ, zero, suc, ◌-◌, ◌≡◌, refl, Bool, true, Option, none, some, List, [], ◌∷◌, ◌++◌, All,
  All-append, get_elem?, set, length, Option-cases, inl, inr,
}
use pvpool.Prelude.Members.{All-set, All-take, All-get_elem?}
use pvpool.Exec.{Outcome, ok, err, panic, timeout, pure, continue}
use pvpool.Exec.Rules.{Keeps-bind, Gives, Keeps-bind_value}
use pvpool.Api.State.{PoolReplica, PoolState}
use pvpool.Kube.{Kube}
use pvpool.Kube.Frame.{Frame, Owns, OwnsAll, PoolHeld, ReadLaws, ClaimLaws}
use pvpool.Replica
use pvpool.Replica.{take_at}
use pvpool.Replica.Owned.{ReplicaHeld, delete-ReplicaHeld}
use pvpool.PoolState.Slots.{
  Slot, initializing, available, stale, replicas_in, put_in, push, call, pop_from, delete_popped,
  delete_found, drain, drain_slot, delete,
}

module _ (k : Kube) (f : Frame k) where
  pub OwnsAll-replicas_in :
      (slot : Slot) (ps : PoolState) → OwnsAll k f ps → All (Owns k f) (replicas_in slot ps)
  OwnsAll-replicas_in initializing ps h = h.initializing
  OwnsAll-replicas_in available ps h = h.available
  OwnsAll-replicas_in stale ps h = h.stale

  pub OwnsAll-put_in :
      (slot : Slot) (rs : List PoolReplica) (ps : PoolState)
      → All (Owns k f) rs
      → OwnsAll k f ps
      → OwnsAll k f (put_in slot rs ps)
  OwnsAll-put_in initializing rs ps r h = record {
    is_pool = h.is_pool;
    initializing = r;
    available = h.available;
    stale = h.stale;
  }
  OwnsAll-put_in available rs ps r h = record {
    is_pool = h.is_pool;
    initializing = h.initializing;
    available = r;
    stale = h.stale;
  }
  OwnsAll-put_in stale rs ps r h = record {
    is_pool = h.is_pool;
    initializing = h.initializing;
    available = h.available;
    stale = r;
  }

  pub OwnsAll-push :
      (slot : Slot) (r : PoolReplica) (ps : PoolState)
      → Owns k f r
      → OwnsAll k f ps
      → OwnsAll k f (push slot r ps)
  OwnsAll-push slot r ps own h =
      OwnsAll-put_in slot (replicas_in slot ps ++ r ∷ []) ps
        (All-append (Owns k f) (replicas_in slot ps) (r ∷ []) (OwnsAll-replicas_in slot ps h)
          (own, tt))
        h

  -- A list of replicas whose claims may be written, and one that was taken out of it.
  abbrev ListHeld : k.World × List PoolReplica → Type 0
  ListHeld s = f.Safe s.0 × All (Owns k f) s.1

  abbrev pub OwnsFound : Option PoolReplica → Type 0
  OwnsFound none = Unit {0}
  OwnsFound (some r) = Owns k f r

  take_at-ListHeld :
      (i : ℕ) (s : k.World × List PoolReplica)
      → ListHeld s
      → Gives (λ found t. OwnsFound found × ListHeld t) ListHeld (take_at k i s)
  take_at-ListHeld i s h = elim (Option-cases (get_elem? s.1 i)) [
    | inl over ↦ rw over h
    | inr (r, e) ↦ elim (Option-cases (get_elem? s.1 (length s.1 - 1))) [
      | inl over ↦ rw (e, over) h
      | inr (last, e') ↦
          rw (e, e')
            (
              All-get_elem? (Owns k f) s.1 i h.1 e,
              (
                h.0,
                All-take (Owns k f) (length s.1 - 1) (set s.1 i last) (
                    All-set (Owns k f) s.1 i last h.1
                      (All-get_elem? (Owns k f) s.1 (length s.1 - 1) h.1 e')),
              ),
            )
    ]
  ]

  module _ (reads : ReadLaws k f) where
    pop-ListHeld :
        (rng : k.Rng) (s : k.World × List PoolReplica)
        → ListHeld s
        → Gives (λ found t. OwnsFound found × ListHeld t) ListHeld (Replica.pop k rng s)
    unfolding Replica.pop
    pop-ListHeld rng (w, []) h = (tt, h)
    pop-ListHeld rng (w, r ∷ rs) h =
        go (k.uint64_n rng (length (r ∷ rs)) w) (reads.uint64_n-Safe rng (length (r ∷ rs)) w h.0)
      where
        go :
            (d : Outcome k.Error ℕ × k.World)
            → f.Safe d.1
            → Gives
                (λ found t. OwnsFound found × ListHeld t)
                ListHeld
                (continue {S = k.World × List PoolReplica} d.0 (take_at k) (d.1, r ∷ rs))
        go (ok i, t) safe = take_at-ListHeld i (t, r ∷ rs) (safe, h.1)
        go (err e, t) safe = (safe, h.1)
        go (panic, t) safe = (safe, h.1)
        go (timeout, t) safe = (safe, h.1)

    pub pop_from-PoolHeld :
        (slot : Slot) (rng : k.Rng) (s : k.World × PoolState)
        → PoolHeld k f s
        → Gives (λ found t. OwnsFound found × PoolHeld k f t) (PoolHeld k f) (pop_from k slot rng s)
    pop_from-PoolHeld slot rng s h =
        go (Replica.pop k rng (s.0, replicas_in slot s.1))
          (pop-ListHeld rng (s.0, replicas_in slot s.1) (h.0, OwnsAll-replicas_in slot s.1 h.1))
      where
        go :
            (d : Outcome k.Error (Option PoolReplica) × (k.World × List PoolReplica))
            → Gives (λ found t. OwnsFound found × ListHeld t) ListHeld d
            → Gives
                (λ found t. OwnsFound found × PoolHeld k f t)
                (PoolHeld k f)
                (d.0, (d.1.0, put_in slot d.1.1 s.1))
        go (ok found, t) g = (g.0, (g.1.0, OwnsAll-put_in slot t.1 s.1 g.1.1 h.1))
        go (err e, t) g = (g.0, OwnsAll-put_in slot t.1 s.1 g.1 h.1)
        go (panic, t) g = (g.0, OwnsAll-put_in slot t.1 s.1 g.1 h.1)
        go (timeout, t) g = (g.0, OwnsAll-put_in slot t.1 s.1 g.1 h.1)

    module _ (claims : ClaimLaws k f) where
      pub delete_popped-PoolHeld :
          (slot : Slot) (r : PoolReplica) (s : k.World × PoolState)
          → Owns k f r
          → PoolHeld k f s
          → PoolHeld k f (delete_popped k slot r s).1
      unfolding delete_popped
      delete_popped-PoolHeld slot r s own h = go (Replica.delete k (s.0, r)).0 refl
        where
          gone : ReplicaHeld k f (Replica.delete k (s.0, r)).1
          gone = delete-ReplicaHeld k f reads claims (s.0, r) (h.0, own)

          go :
              (res : Outcome k.Error Bool)
              → (Replica.delete k (s.0, r)).0 ≡ res
              → PoolHeld k f (delete_popped k slot r s).1
          go (ok b) e = rw (delete_popped, e) (gone.0, h.1)
          go (err x) e =
              rw (delete_popped, e)
                (gone.0, OwnsAll-push slot (Replica.delete k (s.0, r)).1.1 s.1 gone.1 h.1)
          go panic e = rw (delete_popped, e) (gone.0, h.1)
          go timeout e = rw (delete_popped, e) (gone.0, h.1)

      drain-PoolHeld :
          (fuel : ℕ) (slot : Slot) (rng : k.Rng) (s : k.World × PoolState)
          → PoolHeld k f s
          → PoolHeld k f (drain k fuel slot rng s).1
      unfolding drain
      drain-PoolHeld zero slot rng s h = h
      drain-PoolHeld (suc fuel) slot rng s h =
          Keeps-bind_value (λ found t. OwnsFound found × PoolHeld k f t) (PoolHeld k f)
            (pop_from k slot rng) (λ found. delete_found k slot found (drain k fuel slot rng)) s
            (pop_from-PoolHeld slot rng s h)
            elim [
              | none ↦ λ t g. g.1
              | some r ↦ λ t g.
                  Keeps-bind (PoolHeld k f) (delete_popped k slot r) (λ _. drain k fuel slot rng) t
                    (delete_popped-PoolHeld slot r t g.0 g.1) λ _. drain-PoolHeld fuel slot rng
            ]

      pub delete-PoolHeld : (s : k.World × PoolState) → PoolHeld k f s → PoolHeld k f (delete k s).1
      unfolding delete
      delete-PoolHeld s h =
          Keeps-bind (PoolHeld k f) (call k k.new_rng) _ s (reads.new_rng-Safe s.0 h.0, h.1)
            λ rng s1 h1.
              Keeps-bind (PoolHeld k f) (drain_slot k initializing rng) _ s1
                (drain-PoolHeld _ initializing rng s1 h1)
                λ _ s2 h2.
                  Keeps-bind (PoolHeld k f) (drain_slot k available rng) _ s2
                    (drain-PoolHeld _ available rng s2 h2)
                    λ _ s3 h3.
                      Keeps-bind (PoolHeld k f) (drain_slot k stale rng) (λ _. pure true) s3
                        (drain-PoolHeld _ stale rng s3 h3) λ _ _ h4. h4
