-- ===== src/PoolState/Slots.antt =====
-- The three lists of a PoolState, what it takes to remove a replica from one of them and to sort
-- one into them, and Delete of pkg/controller/app/pool_state.go.
use pvpool.Prelude.{
  ℕ, zero, suc, Bool, true, Option, none, some, List, [], ◌∷◌, ◌++◌, if◌then◌else◌, length,
}
use pvpool.Exec.{Exec, ok, err, panic, timeout, pure, cut_off, on, ◌>>=◌, ◌>>◌}
use pvpool.Api.State.{PoolReplica, PoolState}
use pvpool.Kube.{Kube}
use pvpool.Replica
use pvpool.Replica.Phase.{is_stale, is_available}

pub data Slot : Type 0 where
  initializing available stale : Slot

abbrev pub replicas_in : Slot → PoolState → List PoolReplica
replicas_in initializing ps = ps.initializing
replicas_in available ps = ps.available
replicas_in stale ps = ps.stale

abbrev pub put_in : Slot → List PoolReplica → PoolState → PoolState
put_in initializing rs ps = record ps { initializing = rs }
put_in available rs ps = record ps { available = rs }
put_in stale rs ps = record ps { stale = rs }

-- The switch on a replica in Load and in persistScaleUp.
abbrev pub slot_of : Kube → PoolReplica → Slot
slot_of k r = if is_stale k r then stale else if is_available r then available else initializing

abbrev pub push : Slot → PoolReplica → PoolState → PoolState
push slot r ps = put_in slot (replicas_in slot ps ++ r ∷ []) ps

module _ (k : Kube) where
  abbrev pub Method : Type 0 → Type 0
  Method A = Exec k.Error (k.World × PoolState) A

  -- A call that does not touch the state.
  abbrev pub call : {A : Type 0} → Exec k.Error k.World A → Method A
  call m (w, ps) = let (res, w') = m w in (res, (w', ps))

  abbrev pub pop_from : Slot → k.Rng → Method (Option PoolReplica)
  pop_from slot rng = on (replicas_in slot) (put_in slot) (Replica.pop k rng)

  -- Deletes a replica that was popped; it goes back into the list if that fails.
  unfoldable pub delete_popped : Slot → PoolReplica → Method (Unit {0})
  delete_popped slot r (w, ps) =
      let (res, s) = Replica.delete k (w, r) in
      elim res [
        | ok _ ↦ (ok tt, (s.0, ps))
        | err e ↦ (err e, (s.0, push slot s.1 ps))
        | panic ↦ (panic, (s.0, ps))
        | timeout ↦ (timeout, (s.0, ps))
      ]

  -- `if !found { break }`, the deletion, and the rest of the loop.
  abbrev pub delete_found : Slot → Option PoolReplica → Method (Unit {0}) → Method (Unit {0})
  delete_found slot none rest = pure tt
  delete_found slot (some r) rest = delete_popped slot r >> rest

  -- The inner loop of Delete.
  unfoldable pub drain : ℕ → Slot → k.Rng → Method (Unit {0})
  drain zero slot rng = cut_off
  drain (suc fuel) slot rng =
      pop_from slot rng >>= λ found. delete_found slot found (drain fuel slot rng)

  abbrev pub drain_slot : Slot → k.Rng → Method (Unit {0})
  drain_slot slot rng s = drain (suc (length (replicas_in slot s.1))) slot rng s

  unfoldable pub delete : Method Bool
  delete = do
    rng ← call k.new_rng
    drain_slot initializing rng
    drain_slot available rng
    drain_slot stale rng
    pure true
