-- ===== src/PoolState/Scale.antt =====
-- persistScaleUp, persistScaleDown and persistScale of pkg/controller/app/pool_state.go.
use pvpool.Prelude.{
  Option, ◌+◌, String, none, some, List, [], ◌∷◌, if◌then◌else◌, length, ℤ, pos, ltb_ℤ, to_int32,
}
use pvpool.Exec.{Outcome, ok, err, panic, timeout, pure, modify, gets, ◌>>=◌, ◌>>◌}
use pvpool.Api.Core.{is_true, is_false}
use pvpool.Api.Resources.{Condition, settlement, Pool}
use pvpool.Api.State.{PoolReplica, PoolState, set_pool_cond}
use pvpool.Kube.{Kube, error, number}
use pvpool.Condition.{condition}
use pvpool.Replica
use pvpool.PoolState.Slots.{
  Slot, Method, call, initializing, available, slot_of, push, pop_from, delete_popped,
}

-- Spec.Replicas, or one.
abbrev pub requested : Pool → ℤ
requested pool = elim pool.spec.replicas [ none ↦ pos 1 | some n ↦ n ]

abbrev pub actual : PoolState → ℤ
actual ps = to_int32 (length ps.available + length ps.initializing)

abbrev pub settled : Condition
settled = condition is_true "Settled" "All requested replicas are available to be checked out."

module _ (k : Kube) where
  abbrev pub tell : String → String → String → Method k (Unit {0})
  tell kind reason message = modify λ s. (
    k.record_event
        (record { regarding = s.1.pool.key; kind = kind; reason = reason; message = message }) s.0,
    s.1,
  )

  abbrev pub invalid : k.Error → Condition
  invalid e =
      condition is_false "Invalid" (
        k.sprintf "A PVC could not be created because of configuration problems: %v" (error e ∷ []))

  -- The rest of persistScaleUp, from what ApplyPoolReplica returns.
  abbrev pub add_applied :
      PoolState
      → Outcome k.Error PoolReplica × k.World
      → Outcome k.Error (Unit {0}) × (k.World × PoolState)
  add_applied ps (ok r, w) = (ok tt, (w, push (slot_of k r) r ps))
  add_applied ps (err e, w) =
      if k.is_invalid e
      then (
        err (k.mark_user e),
        (w, record ps { conds = set_pool_cond settlement (invalid e) ps.conds }),
      )
      else (err e, (w, ps))
  add_applied ps (panic, w) = (panic, (w, ps))
  add_applied ps (timeout, w) = (timeout, (w, ps))

  unfoldable pub scale_up : Method k (Unit {0})
  scale_up = do
    id ← call k k.new_id
    (λ (w, ps). add_applied ps (Replica.apply_replica k ps.pool id w))

  -- `if !found { continue }`, or else the deletion and `break`.
  abbrev pub delete_or_else : Slot → Option PoolReplica → Method k (Unit {0}) → Method k (Unit {0})
  delete_or_else slot none rest = rest
  delete_or_else slot (some r) rest = delete_popped k slot r

  -- The loop of persistScaleDown over the lists to take a replica from.
  unfoldable pub scale_down_from : List Slot → k.Rng → Method k (Unit {0})
  scale_down_from [] rng = pure tt
  scale_down_from (slot ∷ slots) rng =
      pop_from k slot rng >>= λ found. delete_or_else slot found (scale_down_from slots rng)

  unfoldable pub scale_down : Method k (Unit {0})
  unfolding scale_down_from
  scale_down = do rng ← call k k.new_rng; scale_down_from (initializing ∷ available ∷ []) rng

  abbrev pub settle : PoolState → PoolState
  settle ps = elim ps.initializing [
    | [] ↦ record ps { conds = set_pool_cond settlement settled ps.conds }
    | _ ∷ _ ↦ ps
  ]

  unfoldable pub persist_scale : Method k (Unit {0})
  persist_scale = do
    ps ← gets (λ s. s.1)
    let request = requested ps.pool
    if ltb_ℤ (actual ps) request
        then (do
          tell "Normal" "PoolScaling"
              (k.sprintf "Scaling pool up to %d replicas" (number request ∷ []))
          scale_up)
        else if ltb_ℤ request (actual ps)
        then (do
          tell "Normal" "PoolScaling"
              (k.sprintf "Scaling pool down to %d replicas" (number request ∷ []))
          scale_down)
        else modify (λ s. (s.0, settle s.1))
