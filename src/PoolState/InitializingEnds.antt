-- ===== src/PoolState/InitializingEnds.antt =====
-- How the loop of persistInitializing ends.
use pvpool.Prelude.{
  ℕ, zero, suc, ◌-◌, ◌≤◌, ◌<◌, ◌≡◌, refl, ap, ◌∙◌, Bool, some, List, [], ◌∷◌, arith, length,
  length-set, get_elem?, set, ltb, Bool-cases, inl, inr, if◌then◌else◌,
}
use pvpool.Prelude.Removal.{length-take-le}
use pvpool.Exec.{Returns}
use pvpool.Exec.Rules.{Returns-bind}
use pvpool.Api.State.{PoolState}
use pvpool.Kube.{Kube}
use pvpool.Kube.Laws.{ReplicaLaws}
use pvpool.Replica.Phase.{is_available}
use pvpool.Replica.Persisting.{persist-Returns}
use pvpool.PoolState.Initializing.{Moved, moved, kept, persist_at_run, promote-Moved}
use pvpool.PoolState.Persist.{persist_at, promote, initializing_from, persist_initializing}

get_elem?_lt :
    {A : Type 0} (xs : List A) (i : ℕ) → i < length xs → (a : A) × (get_elem? xs i ≡ some a)
get_elem?_lt [] i h = absurd (omega arith)
get_elem?_lt (x ∷ xs) zero h = (x, refl)
get_elem?_lt (x ∷ xs) (suc i) h = get_elem?_lt xs i (omega arith)

-- What is left of the loop shrinks in every round.
shrinks :
    (i : ℕ) (ps ps' : PoolState) (b : Bool)
    → i < length ps.initializing
    → Moved i ps b ps'
    → ((if b then i else suc i) ≤ length ps'.initializing)
      × (suc (length ps'.initializing - (if b then i else suc i)) ≤ length ps.initializing - i)
shrinks i ps ps' b h (moved r last _ _ _) =
    let l =
      length-take-le (length ps.initializing - 1) (set ps.initializing i last)
        (omega (arith, length-set ps.initializing i last)) in
    (omega (arith, l, h), omega (arith, l, h))
shrinks i ps ps' b h (kept r e waits) = (omega (arith, h), omega (arith, h))

module _ (k : Kube) (laws : ReplicaLaws k) where
  persist_at-Returns :
      (i : ℕ) (s : k.World × PoolState) → i < length s.1.initializing → Returns (persist_at k i s).0
  persist_at-Returns i s h =
      let (r, e) = get_elem?_lt s.1.initializing i h in
      rw e (persist-Returns k laws s.1.pool (s.0, r))

  promote-Returns :
      (i : ℕ) (s : k.World × PoolState) → i < length s.1.initializing → Returns (promote k i s).0
  promote-Returns i s h =
      let (r, e) = get_elem?_lt s.1.initializing i h in
      let (last, f) =
        get_elem?_lt s.1.initializing (length s.1.initializing - 1) (omega (arith, h)) in
      elim (Bool-cases (is_available r)) [
        | inl ready ↦ rw (e, f, ready) tt
        | inr waits ↦ rw (e, f, waits) tt
      ]

  initializing_from-Returns :
      (fuel i : ℕ) (s : k.World × PoolState)
      → i ≤ length s.1.initializing
      → length s.1.initializing - i < fuel
      → Returns (initializing_from k fuel i s).0
  unfolding initializing_from
  initializing_from-Returns zero i s le short = absurd (omega arith)
  initializing_from-Returns (suc fuel) i s le short =
      elim (Bool-cases (ltb i (length s.1.initializing))) [
        | inr over ↦ rw over tt
        | inl inside ↦
            let h : i < length s.1.initializing = ground arith in
            rw inside (
              Returns-bind (persist_at k i) _ s (persist_at-Returns i s h) λ _ s1 e1.
                let (r, w) = persist_at_run k i s s1 e1 in
                let same : length s1.1.initializing ≡ length s.1.initializing =
                  ap (λ (x : PoolState). length x.initializing) w
                  ∙ length-set s.1.initializing i r in
                let h1 : i < length s1.1.initializing = omega (arith, same, h) in
                Returns-bind (promote k i) _ s1 (promote-Returns i s1 h1) λ b s2 e2.
                  let (le2, less) = shrinks i s1.1 s2.1 b h1 (promote-Moved k i s1 s2 b e2) in
                  initializing_from-Returns fuel (if b then i else suc i) s2 le2
                    (omega (arith, less, same, short)))
      ]

  -- persistInitializing always comes to an end, with success or an error, and never reads past its
  -- list.
  pub persist_initializing-Returns :
      (s : k.World × PoolState) → Returns (persist_initializing k s).0
  unfolding persist_initializing
  persist_initializing-Returns s =
      initializing_from-Returns (suc (length s.1.initializing)) 0 s (omega arith) (omega arith)
