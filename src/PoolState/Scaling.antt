-- ===== src/PoolState/Scaling.antt =====
-- What one persistScale does to the replicas of a pool, as a relation between the states before
-- and after it, and how far it moves their number.
use mathlib.Core.List.{Perm}
use pvpool.Prelude.{
  suc, ◌≡◌, sym, ap, ◌∙◌, inl, inr, true, false, Option, none, some, List, [], ◌∷◌, arith, length,
  ltb_ℤ, Bool-cases,
}
use pvpool.Exec.{Outcome, ok, err, panic, timeout}
use pvpool.Exec.Rules.{>>=-eq-ok}
use pvpool.Api.State.{PoolReplica, PoolState}
use pvpool.Kube.{Kube}
use pvpool.Kube.Laws.{RandLaws}
use pvpool.Replica
use pvpool.Replica.Removal.{Popped}
use pvpool.PoolState.Slots.{
  Slot, initializing, available, replicas_in, put_in, slot_of, push, call, pop_from,
}
use pvpool.PoolState.Deletion.{pop_from_run, delete_popped_run}
use pvpool.PoolState.Scale.{
  requested, actual, scale_up, scale_down, scale_down_from, delete_or_else, settle, persist_scale,
  add_applied,
}

-- The list that a replica is taken from: available only if none is initializing.
pub data IsPreferred (ps : PoolState) : Slot → Type 0 where
  first : IsPreferred ps initializing
  second : ps.initializing ≡ [] → IsPreferred ps available

pub data Shrunk (ps ps' : PoolState) : Type 0 where
  emptied : ps.initializing ≡ [] → ps.available ≡ [] → ps' ≡ ps → Shrunk ps ps'
  taken :
      (slot : Slot) (r : PoolReplica) (rs : List PoolReplica)
      → IsPreferred ps slot
      → Perm (replicas_in slot ps) (r ∷ rs)
      → length (replicas_in slot ps) ≡ suc (length rs)
      → ps' ≡ put_in slot rs ps
      → Shrunk ps ps'

pub data Scaled (k : Kube) (ps ps' : PoolState) : Type 0 where
  grown :
      (r : PoolReplica)
      → ltb_ℤ (actual ps) (requested ps.pool) ≡ true
      → ps' ≡ push (slot_of k r) r ps
      → Scaled k ps ps'
  shrunk : ltb_ℤ (requested ps.pool) (actual ps) ≡ true → Shrunk ps ps' → Scaled k ps ps'
  kept :
      ltb_ℤ (actual ps) (requested ps.pool) ≡ false
      → ltb_ℤ (requested ps.pool) (actual ps) ≡ false
      → ps' ≡ settle k ps
      → Scaled k ps ps'

module _ (k : Kube) where
  abbrev Run : Type 0
  Run = Outcome k.Error (Unit {0}) × (k.World × PoolState)

  state_of :
      {A : Type 0} {s s' : k.World × PoolState} {o o' : Outcome k.Error A}
      → ◌≡◌ {A = Outcome k.Error A × (k.World × PoolState)} (o, s) (o', s')
      → s.1 ≡ s'.1
  state_of {A = A} e = ap (λ (q : Outcome k.Error A × (k.World × PoolState)). q.1.1) e

  add_applied_run :
      (ps : PoolState) (d : Outcome k.Error PoolReplica × k.World) (s' : k.World × PoolState)
      → add_applied k ps d ≡ (ok tt, s')
      → (r : PoolReplica) × (s'.1 ≡ push (slot_of k r) r ps)
  add_applied_run ps (ok r, w) s' h = (r, sym (state_of h))
  add_applied_run ps (err e, w) s' h = absurd (ground arith)
  add_applied_run ps (panic, w) s' h = absurd (cc)
  add_applied_run ps (timeout, w) s' h = absurd (cc)

  pub scale_up_run :
      (s s' : k.World × PoolState)
      → scale_up k s ≡ (ok tt, s')
      → (r : PoolReplica) × (s'.1 ≡ push (slot_of k r) r s.1)
  unfolding scale_up
  scale_up_run s s' h =
      let (id, s0, e0, h0) = >>=-eq-ok (call k k.new_id) _ s h in
      let (r, e) = add_applied_run s0.1 (Replica.apply_replica k s0.1.pool id s0.0) s' h0 in
      (r, e ∙ ap (push (slot_of k r) r) (sym (state_of e0)))

  module _ (laws : RandLaws k) where
    take_available :
        (ps : PoolState) (found : Option PoolReplica) (rng : k.Rng) (s s' : k.World × PoolState)
        (rs : List PoolReplica)
        → ps.initializing ≡ []
        → s.1 ≡ put_in available rs ps
        → Popped {E = k.Error} ps.available (ok found) rs
        → delete_or_else k available found (scale_down_from k [] rng) s ≡ (ok tt, s')
        → Shrunk ps s'.1
    unfolding scale_down_from
    take_available ps none rng s s' rs p0 p popped h = emptied p0 popped.0 (
        sym (state_of h)
        ∙ p
        ∙ ap (λ (q : List PoolReplica). put_in available q ps) (popped.1 ∙ sym popped.0))
    take_available ps (some r) rng s s' rs p0 p popped h =
        taken available r rs (second p0) popped.0 popped.1
          (delete_popped_run k available r s (ok tt) s' h ∙ p)

    take_initializing :
        (ps : PoolState) (found : Option PoolReplica) (rng : k.Rng) (s s' : k.World × PoolState)
        (rs : List PoolReplica)
        → s.1 ≡ put_in initializing rs ps
        → Popped {E = k.Error} ps.initializing (ok found) rs
        → delete_or_else k initializing found (scale_down_from k (available ∷ []) rng) s
          ≡ (ok tt, s')
        → Shrunk ps s'.1
    unfolding scale_down_from
    take_initializing ps none rng s s' rs p popped h =
        let (found, s1, e1, h1) = >>=-eq-ok (pop_from k available rng) _ s h in
        let same : s.1 ≡ ps =
          p ∙ ap (λ (q : List PoolReplica). put_in initializing q ps) (popped.1 ∙ sym popped.0) in
        let (rs1, p1, popped1) = pop_from_run k laws available rng s (ok found) s1 e1 in
        take_available ps found rng s1 s' rs1 popped.0 (p1 ∙ ap (put_in available rs1) same)
          (rw same at popped1) h1
    take_initializing ps (some r) rng s s' rs p popped h =
        taken initializing r rs first popped.0 popped.1
          (delete_popped_run k initializing r s (ok tt) s' h ∙ p)

    -- A scale-down that succeeds takes exactly one replica away, an initializing one if there is
    -- one, and none only if there is none of either kind.
    pub scale_down_run :
        (s s' : k.World × PoolState) → scale_down k s ≡ (ok tt, s') → Shrunk s.1 s'.1
    unfolding scale_down
    scale_down_run s s' h =
        let (rng, s0, e0, h0) = >>=-eq-ok (call k k.new_rng) _ s h in
        let (found, s1, e1, h1) = >>=-eq-ok (pop_from k initializing rng) _ s0 h0 in
        let (rs, p, popped) = pop_from_run k laws initializing rng s0 (ok found) s1 e1 in
        let same : s0.1 ≡ s.1 = sym (state_of e0) in
        take_initializing s.1 found rng s1 s' rs (p ∙ ap (put_in initializing rs) same)
          (rw same at popped) h1

    -- A persistScale that succeeds adds one replica if there are too few, takes one away if there
    -- are too many, and otherwise only settles.
    pub persist_scale-Scaled :
        (s s' : k.World × PoolState) → persist_scale k s ≡ (ok tt, s') → Scaled k s.1 s'.1
    unfolding persist_scale
    persist_scale-Scaled s s' h = elim (Bool-cases (ltb_ℤ (actual s.1) (requested s.1.pool))) [
      | inl few ↦ let (r, e) = scale_up_run _ s' (rw few at h) in grown r few e
      | inr enough ↦ elim (Bool-cases (ltb_ℤ (requested s.1.pool) (actual s.1))) [
        | inl many ↦ shrunk many (scale_down_run _ s' (rw (enough, many) at h))
        | inr exact ↦ kept enough exact (sym (state_of (rw (enough, exact) at h)))
      ]
    ]
