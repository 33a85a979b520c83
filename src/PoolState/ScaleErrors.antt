-- ===== src/PoolState/ScaleErrors.antt =====
-- What a persistScale that fails leaves behind.
use pvpool.Prelude.{
  ℕ, suc, ◌≡◌, refl, sym, ap, subst, ◌∙◌, Option, none, some, List, [], ◌∷◌, arith, length,
  length-append, ltb_ℤ, Bool-cases, inl, inr,
}
use pvpool.Exec.{Outcome, ok, err, panic, timeout}
use pvpool.Exec.Rules.{bind_cases}
use pvpool.Api.State.{PoolReplica, PoolState}
use pvpool.Kube.{Kube}
use pvpool.Kube.Laws.{RandLaws}
use pvpool.Replica
use pvpool.Replica.Removal.{Popped}
use pvpool.PoolState.Slots.{
  Slot, initializing, available, stale, replicas_in, put_in, push, call, pop_from, delete_popped,
}
use pvpool.PoolState.Deletion.{Deleted, pop_from_run, delete_popped-Deleted}
use pvpool.PoolState.Convergence.{active}
use pvpool.PoolState.Scale.{
  requested, actual, add_applied, scale_up, delete_or_else, scale_down_from, scale_down,
  persist_scale,
}

active-put_in :
    (slot : Slot) (rs : List PoolReplica) (ps : PoolState)
    → length rs ≡ length (replicas_in slot ps)
    → active (put_in slot rs ps) ≡ active ps
active-put_in initializing rs ps h = omega (arith, h)
active-put_in available rs ps h = omega (arith, h)
active-put_in stale rs ps h = refl

-- One replica taken out of a list, and one put back into it.
active-push :
    (slot : Slot) (r : PoolReplica) (rs : List PoolReplica) (ps : PoolState)
    → length (replicas_in slot ps) ≡ suc (length rs)
    → active (push slot r (put_in slot rs ps)) ≡ active ps
active-push initializing r rs ps h = omega (arith, h, length-append rs (r ∷ []))
active-push available r rs ps h = omega (arith, h, length-append rs (r ∷ []))
active-push stale r rs ps h = refl

module _ (k : Kube) where
  abbrev Run : Type 0
  Run = Outcome k.Error (Unit {0}) × (k.World × PoolState)

  -- As many active replicas as `n`, if the run failed.
  abbrev KeepsIfErr : ℕ → Run → Type 0
  KeepsIfErr n (err e, t) = active t.1 ≡ n
  KeepsIfErr n _ = Unit {0}

  add_applied-KeepsIfErr :
      (ps : PoolState) (d : Outcome k.Error PoolReplica × k.World)
      → KeepsIfErr (active ps) (add_applied k ps d)
  add_applied-KeepsIfErr ps (ok r, w) = tt
  add_applied-KeepsIfErr ps (err e, w) = elim (Bool-cases (k.is_invalid e)) [
    | inl bad ↦ rw bad refl
    | inr good ↦ rw good refl
  ]
  add_applied-KeepsIfErr ps (panic, w) = tt
  add_applied-KeepsIfErr ps (timeout, w) = tt

  -- A call does not touch the state.
  state-call :
      {A : Type 0} (m : k.World → Outcome k.Error A × k.World) (s s' : k.World × PoolState)
      (r : Outcome k.Error A)
      → call k m s ≡ (r, s')
      → active s'.1 ≡ active s.1
  state-call {A} m s s' r e =
      ap (λ (q : Outcome k.Error A × (k.World × PoolState)). active q.1.1) (sym e)

  scale_up-KeepsIfErr : (s : k.World × PoolState) → KeepsIfErr (active s.1) (scale_up k s)
  unfolding scale_up
  scale_up-KeepsIfErr s =
      bind_cases (KeepsIfErr (active s.1)) (call k k.new_id) _ s
        (λ id s1 e.
          subst (λ n. KeepsIfErr n (add_applied k s1.1 (Replica.apply_replica k s1.1.pool id s1.0)))
            (state-call k.new_id s s1 (ok id) e)
            (add_applied-KeepsIfErr s1.1 (Replica.apply_replica k s1.1.pool id s1.0)))
        (λ x s1 e. state-call k.new_id s s1 (err x) e) (λ _ _. tt) (λ _ _. tt)

  delete_popped-KeepsIfErr :
      (slot : Slot) (r : PoolReplica) (rs : List PoolReplica) (ps : PoolState)
      (s : k.World × PoolState)
      → s.1 ≡ put_in slot rs ps
      → length (replicas_in slot ps) ≡ suc (length rs)
      → KeepsIfErr (active ps) (delete_popped k slot r s)
  delete_popped-KeepsIfErr slot r rs ps s p short =
      go (delete_popped k slot r s) (delete_popped-Deleted k slot r s.0 s.1)
    where
      go : (q : Run) → Deleted k slot s.1 q.0 q.1.1 → KeepsIfErr (active ps) q
      go (ok _, t) d = tt
      go (err e, t) d =
          ap active d.1 ∙ ap (λ x. active (push slot d.0 x)) p ∙ active-push slot d.0 rs ps short
      go (panic, t) d = tt
      go (timeout, t) d = tt

  module _ (laws : RandLaws k) where
    found-KeepsIfErr :
        (slot : Slot) (rest : k.World × PoolState → Run)
        → ((t : k.World × PoolState) → KeepsIfErr (active t.1) (rest t))
        → (ps : PoolState) (found : Option PoolReplica) (s : k.World × PoolState)
          (rs : List PoolReplica)
        → s.1 ≡ put_in slot rs ps
        → Popped {E = k.Error} (replicas_in slot ps) (ok found) rs
        → KeepsIfErr (active ps) (delete_or_else k slot found rest s)
    found-KeepsIfErr slot rest ih ps none s rs p popped =
        subst (λ n. KeepsIfErr n (rest s))
          (ap active p ∙ active-put_in slot rs ps (ap length (popped.1 ∙ sym popped.0))) (ih s)
    found-KeepsIfErr slot rest ih ps (some r) s rs p popped =
        delete_popped-KeepsIfErr slot r rs ps s p popped.1

    scale_down_from-KeepsIfErr :
        (slots : List Slot) (rng : k.Rng) (s : k.World × PoolState)
        → KeepsIfErr (active s.1) (scale_down_from k slots rng s)
    unfolding scale_down_from
    scale_down_from-KeepsIfErr [] rng s = tt
    scale_down_from-KeepsIfErr (slot ∷ slots) rng s =
        bind_cases (KeepsIfErr (active s.1)) (pop_from k slot rng) _ s
          (λ found s1 e.
            let (rs, p, popped) = pop_from_run k laws slot rng s (ok found) s1 e in
            found-KeepsIfErr slot (scale_down_from k slots rng)
              (scale_down_from-KeepsIfErr slots rng) s.1 found s1 rs p popped)
          (λ x s1 e.
            let (rs, p, same) = pop_from_run k laws slot rng s (err x) s1 e in
            ap active p ∙ active-put_in slot rs s.1 (ap length same))
          (λ _ _. tt) (λ _ _. tt)

    scale_down-KeepsIfErr : (s : k.World × PoolState) → KeepsIfErr (active s.1) (scale_down k s)
    unfolding scale_down
    scale_down-KeepsIfErr s =
        bind_cases (KeepsIfErr (active s.1)) (call k k.new_rng) _ s
          (λ rng s1 e.
            subst (λ n. KeepsIfErr n (scale_down_from k (initializing ∷ available ∷ []) rng s1))
              (state-call k.new_rng s s1 (ok rng) e)
              (scale_down_from-KeepsIfErr (initializing ∷ available ∷ []) rng s1))
          (λ x s1 e. state-call k.new_rng s s1 (err x) e) (λ _ _. tt) (λ _ _. tt)

    -- A persistScale that fails leaves as many active replicas as there were: a replica that could
    -- not be deleted is put back, and one that could not be created is not added.
    pub persist_scale-active :
        (s s' : k.World × PoolState) (e : k.Error)
        → persist_scale k s ≡ (err e, s')
        → active s'.1 ≡ active s.1
    unfolding persist_scale
    persist_scale-active s s' e h = elim (Bool-cases (ltb_ℤ (actual s.1) (requested s.1.pool))) [
      | inl few ↦ subst (KeepsIfErr (active s.1)) (rw few at h) (scale_up-KeepsIfErr _)
      | inr enough ↦ elim (Bool-cases (ltb_ℤ (requested s.1.pool) (actual s.1))) [
        | inl many ↦
            subst (KeepsIfErr (active s.1)) (rw (enough, many) at h) (scale_down-KeepsIfErr _)
        | inr exact ↦ subst (KeepsIfErr (active s.1)) (rw (enough, exact) at h) tt
      ]
    ]
