-- ===== src/PoolState/Retired.antt =====
-- What persistStale (pkg/controller/app/pool_state.go) does on the server.
use mathlib.Core.List.{Perm}
use mathlib.Core.List.Perm
use pvpool.Prelude.{
  ℕ, zero, suc, ◌≡◌, refl, sym, ap, subst, ◌∙◌, Option, none, some, List, [], ◌∷◌, arith, length,
  get_elem?, ◌-◌, Bool, Bool-cases, inl, inr, Option-cases,
}
use pvpool.Exec.{Outcome, ok, err, panic, timeout, Exec, continue}
use pvpool.Exec.Rules.{>>=-eq-ok}
use pvpool.Api.Core.{JobCondition, is_true}
use pvpool.Api.State.{PoolReplica, PoolState}
use pvpool.Condition.{is_status}
use pvpool.Kube.{Kube, Event}
use pvpool.Kube.Laws.{RandLaws}
use pvpool.Replica
use pvpool.Replica.Removal.{Popped}
use pvpool.PoolState.Slots.{stale, put_in, call, pop_from, delete_popped}
use pvpool.PoolState.Deletion.{pop_from_run, delete_popped_run}
use pvpool.PoolState.Stale.{IsCleared, persist_stale-IsCleared}
use pvpool.PoolState.Persist.{report_failure, retire, stale_loop, persist_stale}

module _ (k : Kube) where
  -- The changes that lead from one world to another where the replicas of a list are deleted, one
  -- after the other, and otherwise only random numbers are drawn and events recorded.
  pub data Deletes : k.World → List PoolReplica → k.World → Type 0 where
    done : {w : k.World} → Deletes w [] w
    drawn :
        {w w' : k.World} {rs : List PoolReplica} (rng : k.Rng) (n : ℕ)
        → Deletes ((k.uint64_n rng n w).1) rs w'
        → Deletes w rs w'
    told :
        {w w' : k.World} {rs : List PoolReplica} (e : Event)
        → Deletes (k.record_event e w) rs w'
        → Deletes w rs w'
    deleted :
        {w w1 w' : k.World} {rs : List PoolReplica} (r r' : PoolReplica) (b : Bool)
        → Replica.delete k (w, r) ≡ (ok b, (w1, r'))
        → Deletes w1 rs w'
        → Deletes w (r ∷ rs) w'

  -- Between two worlds the replicas of a list are deleted, each once and in some order.
  pub record RetiresAll (stales : List PoolReplica) (w w' : k.World) : Type 0 where
    pub order : List PoolReplica
    pub all_stale : Perm order stales
    pub run : Deletes w order w'

  continue_world :
      {A B : Type 0} (res : Outcome k.Error A) (f : A → Exec k.Error (k.World × List PoolReplica) B)
      (s : k.World × List PoolReplica)
      → ((a : A) → (f a s).1.0 ≡ s.0)
      → (continue res f s).1.0 ≡ s.0
  continue_world (ok a) f s h = h a
  continue_world (err e) f s h = refl
  continue_world panic f s h = refl
  continue_world timeout f s h = refl

  take_at_world : (i : ℕ) (s : k.World × List PoolReplica) → (Replica.take_at k i s).1.0 ≡ s.0
  take_at_world i s = elim (Option-cases (get_elem? s.1 i)) [
    | inl out ↦ rw out refl
    | inr (r, e) ↦ elim (Option-cases (get_elem? s.1 (length s.1 - 1))) [
      | inl out ↦ rw (e, out) refl
      | inr (last, f) ↦ rw (e, f) refl
    ]
  ]

  -- Popping a replica out of a list that has one only draws a number.
  pop_world :
      (rng : k.Rng) (r : PoolReplica) (rs : List PoolReplica) (w : k.World)
      → (Replica.pop k rng (w, r ∷ rs)).1.0 ≡ (k.uint64_n rng (length (r ∷ rs)) w).1
  unfolding Replica.pop
  pop_world rng r rs w =
      let (res, w') = k.uint64_n rng (length (r ∷ rs)) w in
      continue_world res (Replica.take_at k) (w', r ∷ rs) λ i. take_at_world i (w', r ∷ rs)

  pop_from-Deletes :
      (rng : k.Rng) (ps : PoolState) (w w' : k.World) (rs : List PoolReplica)
      → Deletes (pop_from k stale rng (w, ps)).1.0 rs w'
      → Deletes w rs w'
  pop_from-Deletes rng ps w w' rs d = go ps.stale d
    where
      go :
          (stales : List PoolReplica)
          → Deletes (Replica.pop k rng (w, stales)).1.0 rs w'
          → Deletes w rs w'
      go [] d = unfold Replica.pop in d
      go (r ∷ stales) d =
          drawn rng (length (r ∷ stales))
            (subst (λ x. Deletes x rs w') (pop_world rng r stales w) d)

  delete_popped_ok :
      (r : PoolReplica) (s s' : k.World × PoolState)
      → delete_popped k stale r s ≡ (ok tt, s')
      → (b : Bool) × (r' : PoolReplica) × (Replica.delete k (s.0, r) ≡ (ok b, (s'.0, r')))
  unfolding delete_popped
  delete_popped_ok r s s' h = go (Replica.delete k (s.0, r)) refl
    where
      go :
          (d : Outcome k.Error Bool × (k.World × PoolReplica))
          → Replica.delete k (s.0, r) ≡ d
          → (b : Bool) × (r' : PoolReplica) × (Replica.delete k (s.0, r) ≡ (ok b, (s'.0, r')))
      go (ok b, t) e =
          let same = ap (λ (d : Outcome k.Error Bool × (k.World × PoolReplica)). d.1.0) (sym e) in
          let last =
            ap (λ (q : Outcome k.Error (Unit {0}) × (k.World × PoolState)). q.1.0)
              (rw (e, delete_popped) at h) in
          (b, t.1, e ∙ ap (λ w. (ok b, (w, t.1))) (same ∙ last))
      go (err x, t) e = absurd (cc (rw (e, delete_popped) at h))
      go (panic, t) e = absurd (cc (rw (e, delete_popped) at h))
      go (timeout, t) e = absurd (cc (rw (e, delete_popped) at h))

  -- What reporting a failed job does: at most an event, and nothing to the stale replicas.
  report_failure-Deletes :
      (o : Option JobCondition) (s : k.World × PoolState) (rs : List PoolReplica) (w' : k.World)
      → Deletes (report_failure k o s).1.0 rs w'
      → Deletes s.0 rs w'
  unfolding report_failure
  report_failure-Deletes none s rs w' d = d
  report_failure-Deletes (some fc) s rs w' d = elim (Bool-cases (is_status fc.status is_true)) [
    | inl failed ↦ told _ (rw failed at d)
    | inr other ↦ rw other at d
  ]

  report_failure-stale :
      (o : Option JobCondition) (s : k.World × PoolState)
      → (report_failure k o s).1.1.stale ≡ s.1.stale
  unfolding report_failure
  report_failure-stale none s = refl
  report_failure-stale (some fc) s = ground arith

  module _ (laws : RandLaws k) where
    retire-RetiresAll :
        (rest : Exec k.Error (k.World × PoolState) (Unit {0}))
        → ((t t' : k.World × PoolState) → rest t ≡ (ok tt, t') → RetiresAll t.1.stale t.0 t'.0)
        → (ps : PoolState) (found : Option PoolReplica) (s1 s' : k.World × PoolState)
          (rs : List PoolReplica)
        → s1.1 ≡ put_in stale rs ps
        → Popped {E = k.Error} ps.stale (ok found) rs
        → retire k found rest s1 ≡ (ok tt, s')
        → RetiresAll ps.stale s1.0 s'.0
    retire-RetiresAll rest ih ps none s1 s' rs p popped h =
        rw
          (popped.0, sym (ap (λ (q : Outcome k.Error (Unit {0}) × (k.World × PoolState)). q.1.0) h))
          (record { order = []; all_stale = Perm.refl []; run = done })
    retire-RetiresAll rest ih ps (some r) s1 s' rs p popped h =
        let (_, s2, e2, h2) = >>=-eq-ok (report_failure k (k.failed_condition r.init_job)) _ s1 h in
        let (_, s3, e3, h3) = >>=-eq-ok (delete_popped k stale r) _ s2 h2 in
        let (b, r', gone) = delete_popped_ok r s2 s3 e3 in
        let c = ih s3 s' h3 in
        let back : (report_failure k (k.failed_condition r.init_job) s1).1 ≡ s2 =
          ap (λ (t : Outcome k.Error (Unit {0}) × (k.World × PoolState)). t.1) e2 in
        let left : s3.1.stale ≡ rs =
          ap (λ (t : PoolState). t.stale) (delete_popped_run k stale r s2 (ok tt) s3 e3)
          ∙ ap (λ (t : k.World × PoolState). t.1.stale) (sym back)
          ∙ report_failure-stale (k.failed_condition r.init_job) s1
          ∙ ap (λ (t : PoolState). t.stale) p in
        record {
          order = r ∷ c.order;
          all_stale =
              Perm.trans (Perm.cons r (subst (Perm c.order) left c.all_stale)) (Perm.symm popped.0);
          run = report_failure-Deletes (k.failed_condition r.init_job) s1 (r ∷ c.order) s'.0 (
              subst (λ (t : k.World × PoolState). Deletes t.0 (r ∷ c.order) s'.0) (sym back)
                (deleted r r' b gone c.run));
        }

    stale_loop-RetiresAll :
        (fuel : ℕ) (rng : k.Rng) (s s' : k.World × PoolState)
        → stale_loop k fuel rng s ≡ (ok tt, s')
        → RetiresAll s.1.stale s.0 s'.0
    unfolding stale_loop
    stale_loop-RetiresAll zero rng s s' h = absurd (cc)
    stale_loop-RetiresAll (suc fuel) rng s s' h =
        let (found, s1, e, h1) = >>=-eq-ok (pop_from k stale rng) _ s h in
        let (rs, p, popped) = pop_from_run k laws stale rng s (ok found) s1 e in
        let c =
          retire-RetiresAll (stale_loop k fuel rng) (stale_loop-RetiresAll fuel rng) s.1 found s1 s'
            rs p popped h1 in
        record {
          order = c.order;
          all_stale = c.all_stale;
          run = pop_from-Deletes rng s.1 s.0 s'.0 c.order (
              subst
                (λ (t : Outcome k.Error (Option PoolReplica) × (k.World × PoolState)).
                  Deletes t.1.0 c.order s'.0)
                (sym e) c.run);
        }

    -- A persistStale that succeeds has called Delete, with success, on each stale replica once and on
    -- no other, in some order, and has done nothing else to the world than draw random numbers and
    -- record events; no stale replica is left in the state, and the others are as before.
    pub persist_stale-RetiresAll :
        (s s' : k.World × PoolState)
        → persist_stale k s ≡ (ok tt, s')
        → RetiresAll s.1.stale (k.new_rng s.0).1 s'.0 × IsCleared s.1 s'.1
    unfolding persist_stale
    persist_stale-RetiresAll s s' h =
        let (rng, s0, e0, h0) = >>=-eq-ok (call k k.new_rng) _ s h in
        let c = stale_loop-RetiresAll _ rng s0 s' h0 in
        let start : (call k k.new_rng s).1 ≡ s0 =
          ap (λ (t : Outcome k.Error k.Rng × (k.World × PoolState)). t.1) e0 in
        (
          subst (λ (t : k.World × PoolState). RetiresAll t.1.stale t.0 s'.0) (sym start) c,
          persist_stale-IsCleared k laws s s' h,
        )
