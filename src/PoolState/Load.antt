-- ===== src/PoolState/Load.antt =====
-- Load of PoolState (pkg/controller/app/pool_state.go).
use pvpool.Prelude.{
  String, Bool, true, false, not, Option, none, some, List, [], ◌∷◌, ◌==◌, if◌then◌else◌,
}
use pvpool.Exec.{pure, modify, gets, continue, ◌>>=◌, ◌>>◌}
use pvpool.Api.Core.{Key, OwnerReference}
use pvpool.Api.State.{PoolReplica, PoolState}
use pvpool.Kube.{Kube}
use pvpool.Replica
use pvpool.PoolState.Slots.{Method, call, slot_of, push}

-- Whether the controller, if there is one, is another object than the one with this uid.
abbrev pub is_other : String → Option OwnerReference → Bool
is_other uid none = false
is_other uid (some c) = not (c.uid == uid)

module _ (k : Kube) where
  -- The loop's body after the replica's own Load.
  unfoldable pub place : PoolReplica → PoolState → PoolState
  place r ps =
      if is_other ps.pool.metadata.uid (k.controller_of r.claim.metadata)
      then ps
      else push (slot_of k r) r ps

  unfoldable pub load_key : Key → Method k (Unit {0})
  load_key key (w, ps) =
      let (res, s) = Replica.load k (w, Replica.new_replica k key) in
      continue res (λ found. if found then modify (λ t. (t.0, place s.1 t.1)) else pure tt)
        (s.0, ps)

  unfoldable pub load_keys : List Key → Method k (Unit {0})
  load_keys [] = pure tt
  load_keys (key ∷ keys) = load_key key >> load_keys keys

  unfoldable pub load : Method k Bool
  load = do
    ps ← gets (λ s. s.1)
    selector ← (λ s. (k.as_selector ps.pool.spec.selector, s))
    keys ← call k (k.list_pvcs ps.pool.key.namespace selector)
    modify (λ s. (s.0, record s.1 { initializing = []; available = []; stale = [] }))
    load_keys keys
    pure true
