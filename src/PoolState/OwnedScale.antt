-- ===== src/PoolState/OwnedScale.antt =====
-- Which claims persistScale and persistStale (pkg/controller/app/pool_state.go) write.
use pvpool.Prelude.{
  String, ℕ, zero, suc, Option, none, some, List, [], ◌∷◌, ltb_ℤ, length, Bool-cases, inl, inr,
}
use pvpool.Exec.{Outcome, ok, err, panic, timeout}
use pvpool.Exec.Rules.{Keeps-bind, Keeps-bind_value, Gives}
use pvpool.Api.Core.{Key, JobCondition, is_true}
use pvpool.Api.Resources.{Condition, PoolConditionType, settlement}
use pvpool.Api.State.{PoolReplica, PoolState, set_pool_cond}
use pvpool.Condition.{is_status}
use pvpool.Kube.{Kube, text}
use pvpool.Kube.Frame.{Frame, Owns, OwnsAll, PoolHeld, ReadLaws, ClaimLaws, PoolLaws}
use pvpool.Replica
use pvpool.Replica.Found.{apply_replica-Owns}
use pvpool.PoolState.Slots.{
  Slot, initializing, available, stale, slot_of, call, pop_from, delete_popped,
}
use pvpool.PoolState.Scale.{
  requested, actual, add_applied, scale_up, delete_or_else, scale_down_from, scale_down, settle,
  settled, persist_scale,
}
use pvpool.PoolState.Persist.{report_failure, retire, stale_loop, persist_stale}
use pvpool.PoolState.Owned.{OwnsAll-push, OwnsFound, pop_from-PoolHeld, delete_popped-PoolHeld}

module _ (k : Kube) (f : Frame k) where
  -- Conditions do not matter.
  pub same_lists :
      (ps : PoolState) (conds : PoolConditionType → Option Condition)
      → OwnsAll k f ps
      → OwnsAll k f (record ps { conds = conds })
  same_lists ps conds h = record {
    is_pool = h.is_pool;
    initializing = h.initializing;
    available = h.available;
    stale = h.stale;
  }

  add_applied-PoolHeld :
      (ps : PoolState) (d : Outcome k.Error PoolReplica × k.World)
      → OwnsAll k f ps
      → Gives (λ r w. f.Safe w × Owns k f r) f.Safe d
      → PoolHeld k f (add_applied k ps d).1
  add_applied-PoolHeld ps (ok r, w) h g = (g.0, OwnsAll-push k f (slot_of k r) r ps g.1 h)
  add_applied-PoolHeld ps (err e, w) h g = elim (Bool-cases (k.is_invalid e)) [
    | inl bad ↦ rw bad (g, same_lists ps _ h)
    | inr good ↦ rw good (g, h)
  ]
  add_applied-PoolHeld ps (panic, w) h g = (g, h)
  add_applied-PoolHeld ps (timeout, w) h g = (g, h)

  settle-OwnsAll : (ps : PoolState) → OwnsAll k f ps → OwnsAll k f (settle k ps)
  settle-OwnsAll ps h =
      elim ps.initializing
        as (λ rs. OwnsAll k f (elim rs [
          | [] ↦ record ps { conds = set_pool_cond settlement settled ps.conds }
          | _ ∷ _ ↦ ps
        ])) [ [] ↦ same_lists ps _ h | r ∷ rs ↦ h ]

module _ (k : Kube) (f : Frame k) (reads : ReadLaws k f) (claims : ClaimLaws k f)
    (pools : PoolLaws k f) where
  abbrev fresh : String → String → String → Key
  fresh namespace name id = record {
    namespace = namespace;
    name = k.meta_name_suffixed name (k.sprintf "-%s" (text id ∷ []));
  }

  scale_up-PoolHeld : (s : k.World × PoolState) → PoolHeld k f s → PoolHeld k f (scale_up k s).1
  unfolding scale_up
  scale_up-PoolHeld s h =
      Keeps-bind_value
        (λ id t. PoolHeld k f t × ((namespace name : String) → f.Own (fresh namespace name id)))
        (PoolHeld k f) (call k k.new_id) _ s (go (k.new_id s.0) (pools.new_id-Own s.0 h.0))
        λ id t g. add_applied-PoolHeld k f t.1 (Replica.apply_replica k t.1.pool id t.0) g.0.1 (
          apply_replica-Owns k f reads claims t.1.pool id t.0 g.0.0
            (g.1 t.1.pool.key.namespace t.1.pool.key.name))
    where
      go :
          (d : Outcome k.Error String × k.World)
          → Gives
              (λ id w. f.Safe w × ((namespace name : String) → f.Own (fresh namespace name id)))
              f.Safe
              d
          → Gives
              (λ id t.
                PoolHeld k f t × ((namespace name : String) → f.Own (fresh namespace name id)))
              (PoolHeld k f)
              (d.0, (d.1, s.1))
      go (ok id, w) g = ((g.0, h.1), g.1)
      go (err e, w) g = (g, h.1)
      go (panic, w) g = (g, h.1)
      go (timeout, w) g = (g, h.1)

  scale_down_from-PoolHeld :
      (slots : List Slot) (rng : k.Rng) (s : k.World × PoolState)
      → PoolHeld k f s
      → PoolHeld k f (scale_down_from k slots rng s).1
  unfolding scale_down_from
  scale_down_from-PoolHeld [] rng s h = h
  scale_down_from-PoolHeld (slot ∷ slots) rng s h =
      Keeps-bind_value (λ found t. OwnsFound k f found × PoolHeld k f t) (PoolHeld k f)
        (pop_from k slot rng) (λ found. delete_or_else k slot found (scale_down_from k slots rng)) s
        (pop_from-PoolHeld k f reads slot rng s h)
        elim [
          | none ↦ λ t g. scale_down_from-PoolHeld slots rng t g.1
          | some r ↦ λ t g. delete_popped-PoolHeld k f reads claims slot r t g.0 g.1
        ]

  scale_down-PoolHeld : (s : k.World × PoolState) → PoolHeld k f s → PoolHeld k f (scale_down k s).1
  unfolding scale_down
  scale_down-PoolHeld s h =
      Keeps-bind (PoolHeld k f) (call k k.new_rng) _ s (reads.new_rng-Safe s.0 h.0, h.1)
        λ rng. scale_down_from-PoolHeld (initializing ∷ available ∷ []) rng

  pub persist_scale-PoolHeld :
      (s : k.World × PoolState) → PoolHeld k f s → PoolHeld k f (persist_scale k s).1
  unfolding persist_scale
  persist_scale-PoolHeld s h = elim (Bool-cases (ltb_ℤ (actual s.1) (requested s.1.pool))) [
    | inl few ↦ rw few (scale_up-PoolHeld _ (reads.record_event-Safe _ s.0 h.0, h.1))
    | inr enough ↦ elim (Bool-cases (ltb_ℤ (requested s.1.pool) (actual s.1))) [
      | inl many ↦
          rw (enough, many) (scale_down-PoolHeld _ (reads.record_event-Safe _ s.0 h.0, h.1))
      | inr exact ↦ rw (enough, exact) (h.0, settle-OwnsAll k f s.1 h.1)
    ]
  ]

  report_failure-PoolHeld :
      (o : Option JobCondition) (s : k.World × PoolState)
      → PoolHeld k f s
      → PoolHeld k f (report_failure k o s).1
  unfolding report_failure
  report_failure-PoolHeld none s h = h
  report_failure-PoolHeld (some fc) s h = elim (Bool-cases (is_status fc.status is_true)) [
    | inl failed ↦ rw failed (reads.record_event-Safe _ s.0 h.0, same_lists k f s.1 _ h.1)
    | inr other ↦ rw other h
  ]

  stale_loop-PoolHeld :
      (fuel : ℕ) (rng : k.Rng) (s : k.World × PoolState)
      → PoolHeld k f s
      → PoolHeld k f (stale_loop k fuel rng s).1
  unfolding stale_loop
  stale_loop-PoolHeld zero rng s h = h
  stale_loop-PoolHeld (suc fuel) rng s h =
      Keeps-bind_value (λ found t. OwnsFound k f found × PoolHeld k f t) (PoolHeld k f)
        (pop_from k stale rng) (λ found. retire k found (stale_loop k fuel rng)) s
        (pop_from-PoolHeld k f reads stale rng s h)
        elim [
          | none ↦ λ t g. g.1
          | some r ↦ λ t g.
              Keeps-bind (PoolHeld k f) (report_failure k (k.failed_condition r.init_job)) _ t
                (report_failure-PoolHeld (k.failed_condition r.init_job) t g.1)
                λ _ u hu.
                  Keeps-bind (PoolHeld k f) (delete_popped k stale r) (λ _. stale_loop k fuel rng) u
                    (delete_popped-PoolHeld k f reads claims stale r u g.0 hu)
                    λ _. stale_loop-PoolHeld fuel rng
        ]

  pub persist_stale-PoolHeld :
      (s : k.World × PoolState) → PoolHeld k f s → PoolHeld k f (persist_stale k s).1
  unfolding persist_stale
  persist_stale-PoolHeld s h =
      Keeps-bind (PoolHeld k f) (call k k.new_rng) _ s (reads.new_rng-Safe s.0 h.0, h.1)
        λ rng t. stale_loop-PoolHeld (suc (length t.1.stale)) rng t
