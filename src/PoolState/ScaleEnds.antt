-- ===== src/PoolState/ScaleEnds.antt =====
-- How persistScale (pkg/controller/app/pool_state.go) ends.
use pvpool.Prelude.{none, some, List, [], ◌∷◌, ltb_ℤ, Bool-cases, inl, inr}
use pvpool.Exec.{Outcome, ok, err, panic, timeout, Returns}
use pvpool.Exec.Rules.{Returns-bind, bind_cases}
use pvpool.Api.State.{PoolReplica, PoolState}
use pvpool.Kube.{Kube}
use pvpool.Kube.Laws.{RandLaws, DeleteLaws, ReplicaLaws, LoadLaws, ReconcileLaws}
use pvpool.Replica
use pvpool.Replica.LoadEnds.{apply_replica-Returns}
use pvpool.PoolState.Slots.{Slot, initializing, available, call, pop_from}
use pvpool.PoolState.Deletion.{pop_from_run, delete_popped-Returns}
use pvpool.PoolState.Scale.{
  requested, actual, add_applied, scale_up, delete_or_else, scale_down_from, scale_down,
  persist_scale,
}

module _ (k : Kube) where
  add_applied-Returns :
      (ps : PoolState) (d : Outcome k.Error PoolReplica × k.World)
      → Returns d.0
      → Returns (add_applied k ps d).0
  add_applied-Returns ps (ok r, w) h = tt
  add_applied-Returns ps (err e, w) h = elim (Bool-cases (k.is_invalid e)) [
    | inl bad ↦ rw bad tt
    | inr good ↦ rw good tt
  ]
  add_applied-Returns ps (panic, w) h = absurd h
  add_applied-Returns ps (timeout, w) h = absurd h

  module _ (rand : RandLaws k) (deletes : DeleteLaws k) where
    scale_down_from-Returns :
        (slots : List Slot) (rng : k.Rng) (s : k.World × PoolState)
        → Returns (scale_down_from k slots rng s).0
    unfolding scale_down_from
    scale_down_from-Returns [] rng s = tt
    scale_down_from-Returns (slot ∷ slots) rng s =
        bind_cases (λ q. Returns q.0) (pop_from k slot rng)
          (λ found. delete_or_else k slot found (scale_down_from k slots rng)) s
          elim [
            | none ↦ λ s1 e. scale_down_from-Returns slots rng s1
            | some r ↦ λ s1 e. delete_popped-Returns k rand deletes slot r s1
          ]
          (λ _ _ _. tt) (λ s1 e. (pop_from_run k rand slot rng s panic s1 e).2)
          (λ s1 e. (pop_from_run k rand slot rng s timeout s1 e).2)

    scale_down-Returns : (s : k.World × PoolState) → Returns (scale_down k s).0
    unfolding scale_down
    scale_down-Returns s =
        Returns-bind (call k k.new_rng) _ s (deletes.new_rng-Returns s.0)
          λ rng s0 _. scale_down_from-Returns (initializing ∷ available ∷ []) rng s0

    module _ (replica : ReplicaLaws k) (loads : LoadLaws k) (calls : ReconcileLaws k) where
      scale_up-Returns : (s : k.World × PoolState) → Returns (scale_up k s).0
      unfolding scale_up
      scale_up-Returns s = Returns-bind (call k k.new_id) _ s (calls.new_id-Returns s.0) λ id t _.
          add_applied-Returns t.1 (Replica.apply_replica k t.1.pool id t.0)
            (apply_replica-Returns k loads replica t.1.pool id t.0)

      pub persist_scale-Returns : (s : k.World × PoolState) → Returns (persist_scale k s).0
      unfolding persist_scale
      persist_scale-Returns s = elim (Bool-cases (ltb_ℤ (actual s.1) (requested s.1.pool))) [
        | inl few ↦ rw few (scale_up-Returns _)
        | inr enough ↦ elim (Bool-cases (ltb_ℤ (requested s.1.pool) (actual s.1))) [
          | inl many ↦ rw (enough, many) (scale_down-Returns _)
          | inr exact ↦ rw (enough, exact) tt
        ]
      ]
