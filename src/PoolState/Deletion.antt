-- ===== src/PoolState/Deletion.antt =====
-- Delete of PoolState: what is left of the three lists, and how its loops end.
use pvpool.Prelude.{
  ℕ, zero, suc, ◌<◌, ◌≡◌, refl, sym, ap, subst, ◌∙◌, Option, none, some, List, [], arith, length,
  Bool,
}
use pvpool.Exec.{Outcome, ok, err, panic, timeout, Returns, Exec}
use pvpool.Exec.Rules.{part-run, bind_cases, Returns-bind, >>=-eq-ok}
use pvpool.Api.State.{PoolReplica, PoolState}
use pvpool.Kube.{Kube, default}
use pvpool.Kube.Laws.{RandLaws, DeleteLaws}
use pvpool.Replica
use pvpool.Replica.Removal.{Popped, pop-Popped}
use pvpool.PoolState.Slots.{
  Slot, initializing, available, stale, replicas_in, put_in, push, call, pop_from, delete_popped,
  delete_found, drain, delete, drain_slot,
}

pub replicas_in-put_in :
    (slot : Slot) (rs : List PoolReplica) (ps : PoolState)
    → replicas_in slot (put_in slot rs ps) ≡ rs
replicas_in-put_in initializing rs ps = refl
replicas_in-put_in available rs ps = refl
replicas_in-put_in stale rs ps = refl

pub put_in-put_in :
    (slot : Slot) (rs rs' : List PoolReplica) (ps : PoolState)
    → put_in slot rs (put_in slot rs' ps) ≡ put_in slot rs ps
put_in-put_in initializing rs rs' ps = refl
put_in-put_in available rs rs' ps = refl
put_in-put_in stale rs rs' ps = refl

module _ (k : Kube) where
  -- What a popped replica's deletion does to the state, by how it ended.
  abbrev pub Deleted : Slot → PoolState → Outcome k.Error (Unit {0}) → PoolState → Type 0
  Deleted slot ps (ok _) ps' = ps' ≡ ps
  Deleted slot ps (err e) ps' = (r : PoolReplica) × (ps' ≡ push slot r ps)
  Deleted slot ps panic ps' = ps' ≡ ps
  Deleted slot ps timeout ps' = ps' ≡ ps

  pub delete_popped-Deleted :
      (slot : Slot) (r : PoolReplica) (w : k.World) (ps : PoolState)
      → let (res, s) = delete_popped k slot r (w, ps) in Deleted slot ps res s.1
  unfolding delete_popped
  delete_popped-Deleted slot r w ps = go (Replica.delete k (w, r)) refl
    where
      go :
          (d : Outcome k.Error Bool × (k.World × PoolReplica))
          → Replica.delete k (w, r) ≡ d
          → let (res, s) = delete_popped k slot r (w, ps) in Deleted slot ps res s.1
      go (ok b, s) e = rw (e, delete_popped) refl
      go (err x, s) e = rw (e, delete_popped) ((Replica.delete k (w, r)).1.1, refl)
      go (panic, s) e = rw (e, delete_popped) refl
      go (timeout, s) e = rw (e, delete_popped) refl

  -- The same, from the equation of a run.
  pub delete_popped_run :
      (slot : Slot) (r : PoolReplica) (s : k.World × PoolState) (res : Outcome k.Error (Unit {0}))
      (s' : k.World × PoolState)
      → delete_popped k slot r s ≡ (res, s')
      → Deleted slot s.1 res s'.1
  delete_popped_run slot r s res s' e =
      subst (λ (q : Outcome k.Error (Unit {0}) × (k.World × PoolState)). Deleted slot s.1 q.0 q.1.1)
        e (delete_popped-Deleted slot r s.0 s.1)

  module _ (laws : RandLaws k) where
    pub pop_from_run :
        (slot : Slot) (rng : k.Rng) (s : k.World × PoolState)
        (res : Outcome k.Error (Option PoolReplica)) (s' : k.World × PoolState)
        → pop_from k slot rng s ≡ (res, s')
        → (rs : List PoolReplica) × (s'.1 ≡ put_in slot rs s.1)
          × Popped (replicas_in slot s.1) res rs
    pop_from_run slot rng s res s' e =
        let rs = (Replica.pop k rng (s.0, replicas_in slot s.1)).1.1 in
        (
          rs,
          part-run e,
          subst
              (λ (q : Outcome k.Error (Option PoolReplica) × (k.World × PoolState)).
                Popped (replicas_in slot s.1) q.0 rs)
              e (pop-Popped k laws rng s.0 (replicas_in slot s.1)),
        )

    drain_found :
        (slot : Slot) (rest : Exec k.Error (k.World × PoolState) (Unit {0}))
        → ((t t' : k.World × PoolState) → rest t ≡ (ok tt, t') → t'.1 ≡ put_in slot [] t.1)
        → (ps : PoolState) (found : Option PoolReplica) (s1 s' : k.World × PoolState)
          (rs : List PoolReplica)
        → s1.1 ≡ put_in slot rs ps
        → Popped {E = k.Error} (replicas_in slot ps) (ok found) rs
        → delete_found k slot found rest s1 ≡ (ok tt, s')
        → s'.1 ≡ put_in slot [] ps
    drain_found slot rest ih ps none s1 s' rs p popped h = cc (p, popped.1, h)
    drain_found slot rest ih ps (some r) s1 s' rs p popped h =
        let (_, s2, e2, h2) = >>=-eq-ok (delete_popped k slot r) _ s1 h in
        ih s2 s' h2
        ∙ ap (put_in slot []) (delete_popped_run slot r s1 (ok tt) s2 e2 ∙ p)
        ∙ put_in-put_in slot [] rs ps

    -- Where the drain of a list ends well, the list is empty and the rest is as it was.
    pub drain_lem :
        (fuel : ℕ) (slot : Slot) (rng : k.Rng) (s s' : k.World × PoolState)
        → drain k fuel slot rng s ≡ (ok tt, s')
        → s'.1 ≡ put_in slot [] s.1
    unfolding drain
    drain_lem zero slot rng s s' h = absurd (cc)
    drain_lem (suc fuel) slot rng s s' h =
        let (found, s1, e, h1) = >>=-eq-ok (pop_from k slot rng) _ s h in
        let (rs, p, popped) = pop_from_run slot rng s (ok found) s1 e in
        drain_found slot (drain k fuel slot rng) (drain_lem fuel slot rng) s.1 found s1 s' rs p
          popped h1

    -- When Delete succeeds no replica is left in any of the three lists, and nothing else of the
    -- state has changed.
    pub delete_empties :
        (s s' : k.World × PoolState) (b : Bool)
        → delete k s ≡ (ok b, s')
        → s'.1 ≡ record s.1 { initializing = []; available = []; stale = [] }
    unfolding delete
    delete_empties s s' b h =
        let (rng, s0, e0, h0) = >>=-eq-ok (call k k.new_rng) _ s h in
        let (_, s1, e1, h1) = >>=-eq-ok (drain_slot k initializing rng) _ s0 h0 in
        let (_, s2, e2, h2) = >>=-eq-ok (drain_slot k available rng) _ s1 h1 in
        let (_, s3, e3, h3) = >>=-eq-ok (drain_slot k stale rng) _ s2 h2 in
        let p0 : s0.1 ≡ s.1 = part-run e0 in
        let p1 = drain_lem _ initializing rng s0 s1 e1 in
        let p2 = drain_lem _ available rng s1 s2 e2 in
        let p3 = drain_lem _ stale rng s2 s3 e3 in
        sym (ap (λ (q : Outcome k.Error Bool × (k.World × PoolState)). q.1.1) h3)
        ∙ p3
        ∙ ap (put_in stale []) (p2 ∙ ap (put_in available []) (p1 ∙ ap (put_in initializing []) p0))

    module _ (returns : DeleteLaws k) where
      pub delete_popped-Returns :
          (slot : Slot) (r : PoolReplica) (s : k.World × PoolState)
          → Returns (delete_popped k slot r s).0
      unfolding delete_popped Replica.delete
      delete_popped-Returns slot r s = ground (
        arith,
        returns.delete_job-Returns default (s.0, r.init_job),
        returns.delete_pvc-Returns default ((k.delete_job default (s.0, r.init_job)).1.0, r.claim),
      )

      drain_found-Returns :
          (slot : Slot) (rest : Exec k.Error (k.World × PoolState) (Unit {0})) (n : ℕ)
          → ((t : k.World × PoolState) → length (replicas_in slot t.1) < n → Returns (rest t).0)
          → (ps : PoolState) (found : Option PoolReplica) (s1 : k.World × PoolState)
            (rs : List PoolReplica)
          → length (replicas_in slot ps) < suc n
          → s1.1 ≡ put_in slot rs ps
          → Popped {E = k.Error} (replicas_in slot ps) (ok found) rs
          → Returns (delete_found k slot found rest s1).0
      drain_found-Returns slot rest n ih ps none s1 rs short p popped = tt
      drain_found-Returns slot rest n ih ps (some r) s1 rs short p popped =
          Returns-bind (delete_popped k slot r) (λ _. rest) s1 (delete_popped-Returns slot r s1)
            λ _ s2 e. ih s2 (
              rw (delete_popped_run slot r s1 (ok tt) s2 e, p, replicas_in-put_in slot rs ps)
                (omega (arith, popped.1)))

      -- One more round than there are replicas is enough.
      drain-Returns :
          (fuel : ℕ) (slot : Slot) (rng : k.Rng) (s : k.World × PoolState)
          → length (replicas_in slot s.1) < fuel
          → Returns (drain k fuel slot rng s).0
      unfolding drain
      drain-Returns zero slot rng s short = absurd (omega arith)
      drain-Returns (suc fuel) slot rng s short =
          bind_cases (λ q. Returns q.0) (pop_from k slot rng)
            (λ found. delete_found k slot found (drain k fuel slot rng)) s
            (λ found s1 e.
              let (rs, p, popped) = pop_from_run slot rng s (ok found) s1 e in
              drain_found-Returns slot (drain k fuel slot rng) fuel (drain-Returns fuel slot rng)
                s.1 found s1 rs short p popped)
            (λ _ _ _. tt) (λ s1 e. (pop_from_run slot rng s panic s1 e).2)
            (λ s1 e. (pop_from_run slot rng s timeout s1 e).2)

      -- Delete always comes to an end, with success or an error, and never panics.
      pub delete-Returns : (s : k.World × PoolState) → Returns (delete k s).0
      unfolding delete
      delete-Returns s =
          Returns-bind (call k k.new_rng) _ s (returns.new_rng-Returns s.0) λ rng s0 _.
            Returns-bind (drain_slot k initializing rng) _ s0
              (drain-Returns _ initializing rng s0 (omega arith))
              λ _ s1 _.
                Returns-bind (drain_slot k available rng) _ s1
                  (drain-Returns _ available rng s1 (omega arith))
                  λ _ s2 _.
                    Returns-bind (drain_slot k stale rng) _ s2
                      (drain-Returns _ stale rng s2 (omega arith)) λ _ s3 _. tt
