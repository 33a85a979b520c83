-- ===== src/PoolState/OwnedPersist.antt =====
-- Which claims ConfigurePoolState and Persist (pkg/controller/app/pool_state.go) write.
use pvpool.Prelude.{
  ℕ, zero, suc, ◌-◌, sym, subst, List, [], ◌∷◌, ◌++◌, ltb, length, get_elem?, set, if◌then◌else◌,
  All, All-append, Bool-cases, Option-cases, inl, inr,
}
use pvpool.Prelude.Members.{All-set, All-take, All-get_elem?, All-map}
use pvpool.Exec.{modify, ◌>>◌}
use pvpool.Exec.Rules.{Keeps-bind, Keeps-continue}
use pvpool.Api.Resources.{available}
use pvpool.Api.State.{PoolReplica, PoolState, set_pool_cond}
use pvpool.Kube.{Kube}
use pvpool.Kube.Frame.{Frame, Owns, OwnsAll, PoolHeld, ReadLaws, ClaimLaws, PoolLaws}
use pvpool.Replica
use pvpool.Replica.Configure.{configure}
use pvpool.Replica.Phase.{is_available}
use pvpool.Replica.Found.{configure-key}
use pvpool.Replica.Owned.{persist-ReplicaHeld}
use pvpool.PoolState.Configure.{configure_pool_state}
use pvpool.PoolState.Scale.{persist_scale}
use pvpool.PoolState.Persist.{
  minimum_available, persist_at, promote, initializing_from, persist_initializing, available_from,
  persist_available, persist_stale, persist,
}
use pvpool.PoolState.OwnedScale.{same_lists, persist_scale-PoolHeld, persist_stale-PoolHeld}

module _ (k : Kube) (f : Frame k) (reads : ReadLaws k f) (claims : ClaimLaws k f)
    (pools : PoolLaws k f) where
  pub configure_pool_state-OwnsAll :
      (ps : PoolState) → OwnsAll k f ps → OwnsAll k f (configure_pool_state k ps)
  unfolding configure_pool_state
  configure_pool_state-OwnsAll ps h = record {
    is_pool = h.is_pool;
    initializing =
        All-map (Owns k f) (configure k ps.pool) ps.initializing
          (λ r own. subst f.Own (sym (configure-key k f reads claims ps.pool r)) own)
          h.initializing;
    available = h.available;
    stale = h.stale;
  }

  with_initializing-OwnsAll :
      (rs : List PoolReplica) (ps : PoolState)
      → All (Owns k f) rs
      → OwnsAll k f ps
      → OwnsAll k f (record ps { initializing = rs })
  with_initializing-OwnsAll rs ps own h = record {
    is_pool = h.is_pool;
    initializing = own;
    available = h.available;
    stale = h.stale;
  }

  persist_at-PoolHeld :
      (i : ℕ) (s : k.World × PoolState) → PoolHeld k f s → PoolHeld k f (persist_at k i s).1
  persist_at-PoolHeld i s h = elim (Option-cases (get_elem? s.1.initializing i)) [
    | inl over ↦ rw over h
    | inr (r, e) ↦
        let held =
          persist-ReplicaHeld k f reads claims s.1.pool (s.0, r)
            (h.0, All-get_elem? (Owns k f) s.1.initializing i h.1.initializing e) in
        rw e (
          held.0,
          with_initializing-OwnsAll _ s.1
              (All-set (Owns k f) s.1.initializing i _ h.1.initializing held.1) h.1,
        )
  ]

  promote-PoolHeld :
      (i : ℕ) (s : k.World × PoolState) → PoolHeld k f s → PoolHeld k f (promote k i s).1
  promote-PoolHeld i s h = elim (Option-cases (get_elem? s.1.initializing i)) [
    | inl over ↦ rw over h
    | inr (r, e) ↦ elim (Option-cases (get_elem? s.1.initializing (length s.1.initializing - 1))) [
      | inl over ↦ rw (e, over) h
      | inr (last, e') ↦ elim (Bool-cases (is_available r)) [
        | inr waits ↦ rw (e, e', waits) h
        | inl ready ↦
            let own = All-get_elem? (Owns k f) s.1.initializing i h.1.initializing e in
            let own_last =
              All-get_elem? (Owns k f) s.1.initializing (length s.1.initializing - 1)
                h.1.initializing e' in
            rw (e, e', ready)
              (
                h.0,
                record {
                  is_pool = h.1.is_pool;
                  initializing =
                      All-take (Owns k f) (length s.1.initializing - 1)
                        (set s.1.initializing i last)
                        (All-set (Owns k f) s.1.initializing i last h.1.initializing own_last);
                  available = All-append (Owns k f) s.1.available (r ∷ []) h.1.available (own, tt);
                  stale = h.1.stale;
                },
              )
      ]
    ]
  ]

  initializing_from-PoolHeld :
      (fuel i : ℕ) (s : k.World × PoolState)
      → PoolHeld k f s
      → PoolHeld k f (initializing_from k fuel i s).1
  unfolding initializing_from
  initializing_from-PoolHeld zero i s h = h
  initializing_from-PoolHeld (suc fuel) i s h =
      elim (Bool-cases (ltb i (length s.1.initializing))) [
        | inr over ↦ rw over h
        | inl inside ↦ rw inside (
            Keeps-bind (PoolHeld k f) (persist_at k i) _ s (persist_at-PoolHeld i s h) λ _ t ht.
              Keeps-bind (PoolHeld k f) (promote k i) _ t (promote-PoolHeld i t ht)
                λ moved. initializing_from-PoolHeld fuel (if moved then i else suc i))
      ]

  available_from-PoolHeld :
      (passed rs : List PoolReplica) (s : k.World × PoolState)
      → All (Owns k f) passed
      → All (Owns k f) rs
      → PoolHeld k f s
      → PoolHeld k f (available_from k passed rs s).1
  unfolding available_from
  available_from-PoolHeld passed [] s p own h = h
  available_from-PoolHeld passed (r ∷ rs) s p own h =
      let d = Replica.persist k s.1.pool (s.0, r) in
      let held = persist-ReplicaHeld k f reads claims s.1.pool (s.0, r) (h.0, own.0) in
      let after : PoolHeld k f (d.1.0, record s.1 { available = passed ++ d.1.1 ∷ rs }) = (
        held.0,
        record {
          is_pool = h.1.is_pool;
          initializing = h.1.initializing;
          available = All-append (Owns k f) passed (d.1.1 ∷ rs) p (held.1, own.1);
          stale = h.1.stale;
        },
      ) in
      Keeps-continue {S = k.World × PoolState} (PoolHeld k f) d.0
        (λ _.
          modify
            (λ t. (t.0, record t.1 { conds = set_pool_cond available minimum_available t.1.conds }))
          >> available_from k (passed ++ d.1.1 ∷ []) rs)
        (d.1.0, record s.1 { available = passed ++ d.1.1 ∷ rs }) after
        λ _.
          available_from-PoolHeld (passed ++ d.1.1 ∷ []) rs _
            (All-append (Owns k f) passed (d.1.1 ∷ []) p (held.1, tt)) own.1
            (after.0, same_lists k f _ _ after.1)

  pub persist-PoolHeld : (s : k.World × PoolState) → PoolHeld k f s → PoolHeld k f (persist k s).1
  unfolding persist persist_initializing persist_available
  persist-PoolHeld s h =
      Keeps-bind (PoolHeld k f) (persist_initializing k) _ s
        (initializing_from-PoolHeld (suc (length s.1.initializing)) 0 s h)
        λ _ s1 h1.
          Keeps-bind (PoolHeld k f) (persist_available k) _ s1
            (available_from-PoolHeld [] s1.1.available s1 tt h1.1.available h1)
            λ _ s2 h2.
              Keeps-bind (PoolHeld k f) (persist_scale k) (λ _. persist_stale k) s2
                (persist_scale-PoolHeld k f reads claims pools s2 h2)
                λ _. persist_stale-PoolHeld k f reads claims pools
