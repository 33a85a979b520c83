-- ===== src/PoolState/Initializing.antt =====
-- What persistInitializing (pkg/controller/app/pool_state.go) moves.
use pvpool.Prelude.{
  ℕ, zero, suc, ◌-◌, ◌≤◌, ◌<◌, ◌≡◌, refl, sym, ap, subst, ◌∙◌, Bool, true, false, Option, none,
  some, [], ◌∷◌, ◌++◌, arith, length, length-append, length-set, get_elem?, set, take, ltb, All,
  Bool-cases, inl, inr, if◌then◌else◌,
}
use pvpool.Prelude.Removal.{length-take-le}
use pvpool.Prelude.Prefix.{Before, Before-set, Before-take, Before-suc, All-Before}
use pvpool.Exec.{Outcome, ok, deref, pure, modify, ◌>>=◌, ◌>>◌}
use pvpool.Exec.Rules.{part-run, >>=-eq-ok}
use pvpool.Api.State.{PoolReplica, PoolState}
use pvpool.Kube.{Kube}
use pvpool.Replica
use pvpool.Replica.Phase.{is_available}
use pvpool.PoolState.Convergence.{active}
use pvpool.PoolState.Persist.{persist_at, promote, initializing_from, persist_initializing}

abbrev Waits : PoolReplica → Type 0
Waits r = is_available r ≡ false

-- No replica that became available is left among the initializing ones, and the numbers are kept.
pub record IsPromoted (ps ps' : PoolState) : Type 0 where
  pub none_left : All (λ r. is_available r ≡ false) ps'.initializing
  pub same_active : active ps' ≡ active ps
  pub more_available : length ps.available ≤ length ps'.available
  pub same_stale : ps'.stale ≡ ps.stale
  pub same_pool : ps'.pool ≡ ps.pool

-- What one round does with the replica at position `i`.
pub data Moved (i : ℕ) (ps : PoolState) : Bool → PoolState → Type 0 where
  moved :
      (r last : PoolReplica)
      → get_elem? ps.initializing i ≡ some r
      → get_elem? ps.initializing (length ps.initializing - 1) ≡ some last
      → is_available r ≡ true
      → Moved i ps true (record ps {
        initializing = take (length ps.initializing - 1) (set ps.initializing i last);
        available = ps.available ++ r ∷ [];
      })
  kept :
      (r : PoolReplica)
      → get_elem? ps.initializing i ≡ some r
      → is_available r ≡ false
      → Moved i ps false ps

module _ (k : Kube) where
  pub persist_at_run :
      (i : ℕ) (s s' : k.World × PoolState)
      → persist_at k i s ≡ (ok tt, s')
      → (r : PoolReplica) × (s'.1 ≡ record s.1 { initializing = set s.1.initializing i r })
  persist_at_run i s s' h =
      let (r, s1, e1, h1) = >>=-eq-ok (deref (get_elem? s.1.initializing i)) _ s h in
      ((Replica.persist k s.1.pool (s.0, r)).1.1, part-run h1)

  abbrev Run : Type 0
  Run = Outcome k.Error Bool × (k.World × PoolState)

  -- What holds of a round's outcome if it succeeded.
  abbrev MovedIfOk : ℕ → PoolState → Run → Type 0
  MovedIfOk i ps (ok b, t) = Moved i ps b t.1
  MovedIfOk i ps _ = Unit {0}

  -- `promote` from the two elements that it looks up.
  abbrev promote_at : ℕ → Option PoolReplica → Option PoolReplica → k.World × PoolState → Run
  promote_at i o o' s =
      (do
        r ← deref o
        last ← deref o'
        if is_available r
            then (do
              modify (λ t. (
                t.0,
                record t.1 {
                  initializing = take (length s.1.initializing - 1) (set s.1.initializing i last);
                  available = s.1.available ++ r ∷ [];
                },
              ))
              pure true)
            else pure false)
        s

  promote_at-MovedIfOk :
      (i : ℕ) (o o' : Option PoolReplica) (s : k.World × PoolState)
      → get_elem? s.1.initializing i ≡ o
      → get_elem? s.1.initializing (length s.1.initializing - 1) ≡ o'
      → MovedIfOk i s.1 (promote_at i o o' s)
  promote_at-MovedIfOk i none o' s e f = tt
  promote_at-MovedIfOk i (some r) none s e f = tt
  promote_at-MovedIfOk i (some r) (some last) s e f = elim (Bool-cases (is_available r)) [
    | inl ready ↦ rw ready (moved r last e f ready)
    | inr waits ↦ rw waits (kept r e waits)
  ]

  pub promote-Moved :
      (i : ℕ) (s s' : k.World × PoolState) (b : Bool)
      → promote k i s ≡ (ok b, s')
      → Moved i s.1 b s'.1
  promote-Moved i s s' b h = subst (MovedIfOk i s.1) h (
      promote_at-MovedIfOk i (get_elem? s.1.initializing i)
        (get_elem? s.1.initializing (length s.1.initializing - 1)) s refl refl)

  -- One round of the loop, and the rounds after it.
  module _ (i : ℕ) (ps ps' : PoolState) (rest : (j : ℕ) (t : PoolState) → Type 0)
      (ih : (j : ℕ) (t : PoolState)
        → Before Waits j t.initializing
        → rest j t
        → IsPromoted t ps') where
    Before-written :
        (r : PoolReplica) (t : PoolState)
        → Before Waits i ps.initializing
        → t ≡ record ps { initializing = set ps.initializing i r }
        → Before Waits i t.initializing
    Before-written r t h e =
        subst (λ (x : PoolState). Before Waits i x.initializing) (sym e)
          (Before-set Waits i ps.initializing r h)

    after_round :
        (r : PoolReplica) (t u : PoolState) (b : Bool)
        → i < length ps.initializing
        → Before Waits i ps.initializing
        → t ≡ record ps { initializing = set ps.initializing i r }
        → Moved i t b u
        → rest (if b then i else suc i) u
        → IsPromoted ps ps'
    after_round r t u b inside h e (moved r1 last _ _ _) next =
        let p =
          ih i u
            (Before-take Waits i (length t.initializing - 1) (set t.initializing i last)
              (Before-set Waits i t.initializing last (Before-written r t h e)))
            next in
        let same : length t.initializing ≡ length ps.initializing =
          ap (λ (x : PoolState). length x.initializing) e ∙ length-set ps.initializing i r in
        let shorter =
          length-take-le (length t.initializing - 1) (set t.initializing i last)
            (omega (arith, length-set t.initializing i last)) in
        let longer = length-append t.available (r1 ∷ []) in
        let same_available = ap (λ (x : PoolState). length x.available) e in
        record {
          none_left = p.none_left;
          same_active =
              p.same_active ∙ omega (arith, shorter, longer, same, same_available, inside);
          more_available = omega (arith, p.more_available, longer, same_available);
          same_stale = p.same_stale ∙ ap (λ (x : PoolState). x.stale) e;
          same_pool = p.same_pool ∙ ap (λ (x : PoolState). x.pool) e;
        }
    after_round r t u b inside h e (kept r1 e1 waits) next =
        let p =
          ih (suc i) t (Before-suc Waits i t.initializing r1 e1 waits (Before-written r t h e))
            next in
        record {
          none_left = p.none_left;
          same_active = p.same_active ∙ ap active e ∙ omega (arith, length-set ps.initializing i r);
          more_available = rw (ap (λ (x : PoolState). length x.available) e) at p.more_available;
          same_stale = p.same_stale ∙ ap (λ (x : PoolState). x.stale) e;
          same_pool = p.same_pool ∙ ap (λ (x : PoolState). x.pool) e;
        }

  initializing_from-IsPromoted :
      (fuel i : ℕ) (s s' : k.World × PoolState)
      → Before Waits i s.1.initializing
      → initializing_from k fuel i s ≡ (ok tt, s')
      → IsPromoted s.1 s'.1
  unfolding initializing_from
  initializing_from-IsPromoted zero i s s' h e = absurd (cc)
  initializing_from-IsPromoted (suc fuel) i s s' h e =
      elim (Bool-cases (ltb i (length s.1.initializing))) [
        | inr over ↦
            let same : s'.1 ≡ s.1 =
              ap (λ (q : Outcome k.Error (Unit {0}) × (k.World × PoolState)). q.1.1)
                (sym (rw over at e)) in
            rw same (record {
              none_left = All-Before Waits i s.1.initializing (ground arith) h;
              same_active = refl;
              more_available = omega arith;
              same_stale = refl;
              same_pool = refl;
            })
        | inl inside ↦
            let (_, s1, e1, h1) = >>=-eq-ok (persist_at k i) _ s (rw inside at e) in
            let (b, s2, e2, h2) = >>=-eq-ok (promote k i) _ s1 h1 in
            let (r, w) = persist_at_run i s s1 e1 in
            after_round i s.1 s'.1
              (λ j t. (w : k.World) × (initializing_from k fuel j (w, t) ≡ (ok tt, s')))
              (λ j t g n. initializing_from-IsPromoted fuel j (n.0, t) s' g n.1) r s1.1 s2.1 b
              (ground arith) h w (promote-Moved i s1 s2 b e2) (s2.0, h2)
      ]

  -- After a persistInitializing that succeeds no initializing replica is one that became available,
  -- the number of active replicas is as before, and so are the stale ones and the pool.
  pub persist_initializing-IsPromoted :
      (s s' : k.World × PoolState) → persist_initializing k s ≡ (ok tt, s') → IsPromoted s.1 s'.1
  unfolding persist_initializing
  persist_initializing-IsPromoted s s' h =
      initializing_from-IsPromoted (suc (length s.1.initializing)) 0 s s' tt h
