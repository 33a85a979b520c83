-- ===== src/PoolState/Promotion.antt =====
-- Which replicas persistInitializing (pkg/controller/app/pool_state.go) persists and moves.
use mathlib.Core.List.{Perm, perm_middle, append-nil}
use mathlib.Core.List.Perm
use pvpool.Prelude.{
  ℕ, zero, suc, ◌-◌, ◌≤◌, ◌<◌, ◌≡◌, refl, sym, ap, subst, ◌∙◌, Bool, true, some, List, [], ◌∷◌,
  ◌++◌, arith, length, get_elem?, set, ltb, All, Bool-cases, Option-cases, inl, inr, if◌then◌else◌,
}
use pvpool.Prelude.Members.{some-eq}
use pvpool.Prelude.Splits.{
  get_elem?-split, set-split, snoc_assoc, length-snoc, take-set-split, split_inside, split_outside,
}
use pvpool.Exec.{Outcome, ok}
use pvpool.Exec.Rules.{>>=-eq-ok, part-run}
use pvpool.Api.Resources.{Pool}
use pvpool.Api.State.{PoolReplica, PoolState}
use pvpool.Kube.{Kube}
use pvpool.Replica
use pvpool.Replica.Phase.{is_available}
use pvpool.PoolState.Initializing.{
  Moved, moved, kept, promote-Moved, IsPromoted, persist_initializing-IsPromoted,
}
use pvpool.PoolState.Persist.{persist_at, promote, initializing_from, persist_initializing}

module _ (k : Kube) where
  -- Persist succeeds on each replica of a list, in this order, and makes it the one at the same place
  -- of the other list; the world does not change otherwise.
  pub data Persists (pool : Pool)
      : k.World → List PoolReplica → List PoolReplica → k.World → Type 0 where
    done : {w : k.World} → Persists pool w [] [] w
    persisted :
        {w w1 w' : k.World} {rs rs' : List PoolReplica} (r r' : PoolReplica)
        → Replica.persist k pool (w, r) ≡ (ok tt, (w1, r'))
        → Persists pool w1 rs rs' w'
        → Persists pool w (r ∷ rs) (r' ∷ rs') w'

  -- Where the replicas at hand were `before`, each is persisted once, in some order. Of the results
  -- and the replicas of `passed`, those `promoted` have become available ones, behind those that were
  -- there; they are in fact available, and the others make up the initializing ones.
  pub record PromotesAll (passed before : List PoolReplica) (ps : PoolState) (w : k.World)
      (s' : k.World × PoolState) : Type 0 where
    pub order : List PoolReplica
    pub results : List PoolReplica
    pub promoted : List PoolReplica
    pub each_once : Perm order before
    pub run : Persists ps.pool w order results s'.0
    pub none_lost : Perm (s'.1.initializing ++ promoted) (passed ++ results)
    pub moved_behind : s'.1.available ≡ ps.available ++ promoted
    pub are_available : All (λ r. is_available r ≡ true) promoted

  persist_at-split :
      (s s' : k.World × PoolState) (passed todo : List PoolReplica) (r : PoolReplica)
      → s.1.initializing ≡ passed ++ r ∷ todo
      → persist_at k (length passed) s ≡ (ok tt, s')
      → (r' : PoolReplica) × (Replica.persist k s.1.pool (s.0, r) ≡ (ok tt, (s'.0, r')))
        × (s'.1 ≡ record s.1 { initializing = passed ++ r' ∷ todo })
  persist_at-split s s' passed todo r e h =
      let d = Replica.persist k s.1.pool (s.0, r) in
      let found : get_elem? s.1.initializing (length passed) ≡ some r =
        ap (λ xs. get_elem? xs (length passed)) e ∙ get_elem?-split passed r todo in
      let h1 = rw found at h in
      let same_world = ap (λ (q : Outcome k.Error (Unit {0}) × (k.World × PoolState)). q.1.0) h1 in
      let is_ok = ap (λ (q : Outcome k.Error (Unit {0}) × (k.World × PoolState)). q.0) h1 in
      (
        d.1.1,
        ap (λ o. (o, d.1)) is_ok ∙ ap (λ w. (ok tt, (w, d.1.1))) same_world,
        part-run h1
            ∙ ap (λ xs. record s.1 { initializing = xs })
                (ap (λ xs. set xs (length passed) d.1.1) e ∙ set-split passed r d.1.1 todo),
      )

  promote_world : (i : ℕ) (s : k.World × PoolState) → (promote k i s).1.0 ≡ s.0
  promote_world i s = elim (Option-cases (get_elem? s.1.initializing i)) [
    | inl out ↦ rw out refl
    | inr (r, e) ↦ elim (Option-cases (get_elem? s.1.initializing (length s.1.initializing - 1))) [
      | inl out ↦ rw (e, out) refl
      | inr (last, f) ↦ elim (Bool-cases (is_available r)) [
        | inl ready ↦ rw (e, f, ready) refl
        | inr waits ↦ rw (e, f, waits) refl
      ]
    ]
  ]

  -- One round of the loop, and the rounds after it.
  module _ (ps : PoolState) (passed todo : List PoolReplica) (r r' : PoolReplica) (w w1 : k.World)
      (s' : k.World × PoolState)
      (first : Replica.persist k ps.pool (w, r) ≡ (ok tt, (w1, r'))) where
    after_round :
        (t u : PoolState) (b : Bool)
        → t ≡ record ps { initializing = passed ++ r' ∷ todo }
        → Moved (length passed) t b u
        → ((p l : List PoolReplica)
            → u.initializing ≡ p ++ l
            → length p ≡ (if b then length passed else suc (length passed))
            → PromotesAll p l u w1 s')
        → PromotesAll passed (r ∷ todo) ps w s'
    after_round t u b e (moved r1 last a f ready) next =
        let at : t.initializing ≡ passed ++ r' ∷ todo = ap (λ (x : PoolState). x.initializing) e in
        let same : r1 ≡ r' =
          some-eq
            (sym a ∙ ap (λ xs. get_elem? xs (length passed)) at ∙ get_elem?-split passed r' todo) in
        let (zs, p, q) = take-set-split passed r' todo last (rw at at f) in
        let c = next passed zs (rw at q) refl in
        record {
          order = r ∷ c.order;
          results = r' ∷ c.results;
          promoted = r1 ∷ c.promoted;
          each_once = Perm.cons r (Perm.trans c.each_once p);
          run =
              persisted r r' first
                (subst (λ (x : PoolState). Persists x.pool w1 c.order c.results s'.0) e c.run);
          none_lost = Perm.trans (perm_middle s'.1.initializing c.promoted) (
              Perm.trans
                (subst
                  (λ x. Perm (r1 ∷ (s'.1.initializing ++ c.promoted)) (x ∷ (passed ++ c.results)))
                  same (Perm.cons r1 c.none_lost))
                (Perm.symm (perm_middle passed c.results)));
          moved_behind =
              c.moved_behind
              ∙ sym (snoc_assoc t.available r1 c.promoted)
              ∙ ap (λ (x : PoolState). x.available ++ r1 ∷ c.promoted) e;
          are_available = (ready, c.are_available);
        }
    after_round t u b e (kept r1 a waits) next =
        let at : t.initializing ≡ passed ++ r' ∷ todo = ap (λ (x : PoolState). x.initializing) e in
        let c =
          next (passed ++ r' ∷ []) todo (at ∙ snoc_assoc passed r' todo) (length-snoc passed r') in
        record {
          order = r ∷ c.order;
          results = r' ∷ c.results;
          promoted = c.promoted;
          each_once = Perm.cons r c.each_once;
          run =
              persisted r r' first
                (subst (λ (x : PoolState). Persists x.pool w1 c.order c.results s'.0) e c.run);
          none_lost =
              subst (Perm (s'.1.initializing ++ c.promoted)) (sym (snoc_assoc passed r' c.results))
                c.none_lost;
          moved_behind = c.moved_behind ∙ ap (λ (x : PoolState). x.available ++ c.promoted) e;
          are_available = c.are_available;
        }

  one_round :
      (s s1 s2 s' : k.World × PoolState) (passed before : List PoolReplica) (b : Bool)
      → s.1.initializing ≡ passed ++ before
      → length passed < length s.1.initializing
      → persist_at k (length passed) s ≡ (ok tt, s1)
      → promote k (length passed) s1 ≡ (ok b, s2)
      → ((p l : List PoolReplica)
          → s2.1.initializing ≡ p ++ l
          → length p ≡ (if b then length passed else suc (length passed))
          → PromotesAll p l s2.1 s2.0 s')
      → PromotesAll passed before s.1 s.0 s'
  one_round s s1 s2 s' passed before b e inside e1 e2 next =
      let (r, todo, f) = split_inside passed before (omega (arith, inside, ap length e)) in
      let (r', first, written) = persist_at-split s s1 passed todo r (e ∙ ap (◌++◌ passed) f) e1 in
      let same : s2.0 ≡ s1.0 =
        ap (λ (q : Outcome k.Error Bool × (k.World × PoolState)). q.1.0) (sym e2)
        ∙ promote_world (length passed) s1 in
      subst (λ l. PromotesAll passed l s.1 s.0 s') (sym f)
        (after_round s.1 passed todo r r' s.0 s1.0 s' first s1.1 s2.1 b written
          (promote-Moved k (length passed) s1 s2 b e2)
          λ p l x y. subst (λ w. PromotesAll p l s2.1 w s') same (next p l x y))

  no_round :
      (s : k.World × PoolState) (passed before : List PoolReplica)
      → s.1.initializing ≡ passed ++ before
      → length s.1.initializing ≤ length passed
      → PromotesAll passed before s.1 s.0 s
  no_round s passed before e over =
      let none_left = split_outside passed before (omega (arith, over, ap length e)) in
      record {
        order = [];
        results = [];
        promoted = [];
        each_once = subst (Perm []) (sym none_left) (Perm.refl []);
        run = done;
        none_lost =
            subst (λ xs. Perm (xs ++ []) (passed ++ [])) (sym (e ∙ ap (◌++◌ passed) none_left))
              (rw (append-nil (passed ++ [])) (Perm.refl (passed ++ [])));
        moved_behind = sym (append-nil s.1.available);
        are_available = tt;
      }

  initializing_from-PromotesAll :
      (fuel : ℕ) (s s' : k.World × PoolState) (passed before : List PoolReplica) (i : ℕ)
      → s.1.initializing ≡ passed ++ before
      → length passed ≡ i
      → initializing_from k fuel i s ≡ (ok tt, s')
      → PromotesAll passed before s.1 s.0 s'
  unfolding initializing_from
  initializing_from-PromotesAll zero s s' passed before i e l h = absurd (cc)
  initializing_from-PromotesAll (suc fuel) s s' passed before i e l h =
      elim (Bool-cases (ltb i (length s.1.initializing))) [
        | inr over ↦
            subst (PromotesAll passed before s.1 s.0)
              (ap (λ (q : Outcome k.Error (Unit {0}) × (k.World × PoolState)). q.1) (rw over at h))
              (no_round s passed before e (ground arith))
        | inl inside ↦
            let (_, s1, e1, h1) = >>=-eq-ok (persist_at k i) _ s (rw inside at h) in
            let (b, s2, e2, h2) = >>=-eq-ok (promote k i) _ s1 h1 in
            one_round s s1 s2 s' passed before b e (ground arith)
              (subst (λ j. persist_at k j s ≡ (ok tt, s1)) (sym l) e1)
              (subst (λ j. promote k j s1 ≡ (ok b, s2)) (sym l) e2)
              λ p rest x y.
                initializing_from-PromotesAll fuel s2 s' p rest (if b then i else suc i) x
                  (subst (λ j. length p ≡ (if b then j else suc j)) l y) h2
      ]

  -- A persistInitializing that succeeds has called Persist, with success, on each initializing replica
  -- once, and has changed the world by nothing else. Of the replicas as Persist left them, those that
  -- are available now have been appended to the available ones, all others are still initializing
  -- and none of these is available: no replica is lost and none is there twice. The stale
  -- ones and the pool are as before.
  pub persist_initializing-PromotesAll :
      (s s' : k.World × PoolState)
      → persist_initializing k s ≡ (ok tt, s')
      → PromotesAll [] s.1.initializing s.1 s.0 s' × IsPromoted s.1 s'.1
  unfolding persist_initializing
  persist_initializing-PromotesAll s s' h = (
    initializing_from-PromotesAll (suc (length s.1.initializing)) s s' [] s.1.initializing 0 refl
        refl h,
    persist_initializing-IsPromoted k s s' h,
  )
