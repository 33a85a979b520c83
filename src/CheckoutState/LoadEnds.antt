-- ===== src/CheckoutState/LoadEnds.antt =====
-- How Load of CheckoutState (pkg/controller/app/checkout_state.go) ends.
use mathlib.Core.List.{Perm, mem-cons_self, not-mem-nil}
use mathlib.Core.List.Perm
use pvpool.Prelude.{
  String, ◌≡◌, refl, Bool, true, false, ◌||◌, ◌&&◌, some, List, [], ◌∷◌, arith, is_some, All,
  get_elem?, Bool-cases, Option-cases, inl, inr, if◌then◌else◌,
}
use pvpool.Prelude.Members.{All-mem}
use pvpool.Exec.{Outcome, ok, err, panic, timeout, Returns, deref, modify, pure, ◌>>=◌, ◌>>◌}
use pvpool.Exec.Rules.{Returns-bind, Returns-continue}
use pvpool.Api.Core.{Key}
use pvpool.Api.Resources.{Pool, new_pool}
use pvpool.Api.State.{PoolReplica, CheckoutState, new_pool_state}
use pvpool.Kube.{Kube}
use pvpool.Kube.Laws.{LoadLaws, ReconcileLaws, SortLaws}
use pvpool.Replica.{created_before}
use pvpool.Replica.Phase.{is_bound}
use pvpool.PoolState.Slots.{available}
use pvpool.PoolState.Load
use pvpool.PoolState.LoadEnds
use pvpool.PoolState.Classes.{IsClassified, load-IsClassified, BelongsIn}
use pvpool.CheckoutState.Pairs.{Pair, locked, final, claim_of, put_volume, on_claim}
use pvpool.CheckoutState.Load.{
  is_controller, refers_to, pool_key, adopt_volume, pick, load_from, with_pool, load_from_pool,
  load_pair, load,
}

-- What an available replica has.
abbrev HasVolume : PoolReplica → Type 0
HasVolume r = is_some r.volume ≡ true

HasVolume-prop : (r : PoolReplica) → IsProp (HasVolume r)
HasVolume-prop r = hlevel

module _ (k : Kube) where
  All-HasVolume :
      (uid : String) (rs : List PoolReplica) → All (BelongsIn k uid available) rs → All HasVolume rs
  All-HasVolume uid [] h = tt
  All-HasVolume uid (r ∷ rs) h = (rw h.0.0.1.0.1 refl, All-HasVolume uid rs h.1)

  -- Taking the first of a list that holds just what is in a list that is not empty.
  take_first-Returns :
      (sorted rs : List PoolReplica) (r : PoolReplica) (s : k.World × CheckoutState)
      → Perm sorted (r ∷ rs)
      → All HasVolume (r ∷ rs)
      → Returns
          ((deref (get_elem? sorted 0) >>= λ first. deref first.volume >>= λ v.
              modify {E = k.Error} (λ t. (t.0, put_volume locked (some v) t.1)) >> pure true)
            s).0
  take_first-Returns [] rs r s p h = absurd (not-mem-nil ((Perm.mem_iff p).1 mem-cons_self))
  take_first-Returns (x ∷ l) rs r s p h = elim (Option-cases x.volume) [
    | inl missing ↦
        let has : HasVolume x =
          All-mem HasVolume HasVolume-prop (r ∷ rs) h x ((Perm.mem_iff p).0 mem-cons_self) in
        absurd (ground arith)
    | inr (v, e) ↦ rw e tt
  ]

  pick-Returns :
      SortLaws k
      → (key : Key) (rs : List PoolReplica) (s : k.World × CheckoutState) → All HasVolume rs
      → Returns (pick k key rs s).0
  unfolding pick
  pick-Returns sorts key [] s h = tt
  pick-Returns sorts key (r ∷ rs) s h =
      take_first-Returns (k.sort_replicas created_before (r ∷ rs)) rs r s
        (sorts.sort-perm created_before (r ∷ rs)) h

  module _ (loads : LoadLaws k) (calls : ReconcileLaws k) (sorts : SortLaws k) where
    -- What Load of the pool calls available has a volume.
    load_from-Returns : (pool : Pool) (s : k.World × CheckoutState) → Returns (load_from k pool s).0
    load_from-Returns pool s =
        let d = Load.load k (s.0, new_pool_state pool) in
        let sorted : IsClassified k d.1.1 =
          load-IsClassified k (s.0, new_pool_state pool)
            (record { of_initializing = tt; of_available = tt; of_stale = tt }) in
        Returns-continue {S = k.World × CheckoutState} d.0
          (λ found. if found then pick k pool.key d.1.1.available else pure false) (d.1.0, s.1)
          (LoadEnds.load-Returns k loads (s.0, new_pool_state pool))
          elim [
            | false ↦ λ _. tt
            | true ↦ λ _.
                pick-Returns sorts pool.key d.1.1.available (d.1.0, s.1)
                  (All-HasVolume d.1.1.pool.metadata.uid d.1.1.available sorted.of_available)
          ]

    with_pool-Returns :
        (key : Key) (res : Outcome k.Error Bool) (pool : Pool) (s : k.World × CheckoutState)
        → Returns res
        → Returns (with_pool k key res pool s).0
    with_pool-Returns key (ok found) pool s h = load_from-Returns pool s
    with_pool-Returns key (err e) pool s h = tt
    with_pool-Returns key panic pool s h = absurd h
    with_pool-Returns key timeout pool s h = absurd h

    load_from_pool-Returns : (s : k.World × CheckoutState) → Returns (load_from_pool k s).0
    unfolding load_from_pool
    load_from_pool-Returns s =
        let d = k.require_pool (s.0, new_pool (pool_key s.1.checkout)) in
        with_pool-Returns (pool_key s.1.checkout) d.0 d.1.1 (d.1.0, s.1)
          (calls.require_pool-Returns (s.0, new_pool (pool_key s.1.checkout)))

    adopt_volume-Returns : (p : Pair) (s : k.World × CheckoutState) → Returns (adopt_volume k p s).0
    adopt_volume-Returns p s =
        let d = k.load_pv (s.0, k.new_pv (claim_of p s.1).spec.volume_name) in
        Returns-continue {S = k.World × CheckoutState} d.0
          (λ found.
            if found && refers_to (claim_of p s.1).metadata.uid d.1.1.spec.claim_ref
            then modify (λ t. (t.0, put_volume p (some d.1.1) t.1))
            else pure tt)
          (d.1.0, s.1) (loads.load_pv-Returns (s.0, k.new_pv (claim_of p s.1).spec.volume_name))
          λ found _.
            elim (Bool-cases
              (found && refers_to (claim_of p s.1).metadata.uid d.1.1.spec.claim_ref)) [
                | inl takes ↦ rw takes tt
                | inr leaves ↦ rw leaves tt
              ]

    load_pair-Returns : (p : Pair) (s : k.World × CheckoutState) → Returns (load_pair k p s).0
    unfolding load_pair
    load_pair-Returns p s =
        Returns-bind (on_claim k p k.load_pvc) _ s (loads.load_pvc-Returns (s.0, claim_of p s.1))
          λ found s1 _. elim (Bool-cases found) [
            | inr gone ↦ rw gone tt
            | inl there ↦
                elim (Bool-cases (
                  is_controller s1.1.checkout.metadata.uid
                    (k.controller_of (claim_of p s1.1).metadata))) [
                      | inl own ↦ rw (there, own) (adopt_volume-Returns p s1)
                      | inr other ↦ rw (there, other) tt
                    ]
          ]

    pub load-Returns : (s : k.World × CheckoutState) → Returns (load k s).0
    unfolding load
    load-Returns s = Returns-bind (load_pair k locked) _ s (load_pair-Returns locked s) λ _ s1 _.
        Returns-bind (load_pair k final) _ s1 (load_pair-Returns final s1) λ _ s2 _.
          elim (Bool-cases (is_bound s2.1.claim.phase || is_some s2.1.locked_volume)) [
            | inl ready ↦ rw ready tt
            | inr short ↦ rw short (load_from_pool-Returns s2)
          ]
