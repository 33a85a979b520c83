-- ===== src/CheckoutState/Load.antt =====
-- loadFromPool and Load of pkg/controller/app/checkout_state.go.
use pvpool.Prelude.{
  String, Bool, true, false, not, ◌&&◌, ◌||◌, Option, none, some, List, [], ◌∷◌, ◌==◌,
  if◌then◌else◌, is_some, get_elem?,
}
use pvpool.Exec.{
  Outcome, ok, err, panic, timeout, pure, raise, modify, gets, deref, continue, ◌>>=◌, ◌>>◌,
}
use pvpool.Api.Core.{Key, OwnerReference, ObjectReference, unknown}
use pvpool.Api.Resources.{Condition, Checkout, Pool, new_pool}
use pvpool.Api.State.{PoolReplica, CheckoutState, new_pool_state}
use pvpool.Kube.{Kube, text, object_key}
use pvpool.Replica.{created_before}
use pvpool.Condition.{condition}
use pvpool.Replica.Phase.{is_bound}
use pvpool.PoolState.Load
use pvpool.CheckoutState.Pairs.{
  Pair, locked, final, claim_of, put_volume, note_cond, or_else, Method, on_claim,
}

-- The pool that a checkout refers to, in its own namespace by default.
unfoldable pub pool_key : Checkout → Key
unfolding or_else
pool_key c = record {
  namespace = or_else c.spec.pool_ref.namespace c.key.namespace;
  name = c.spec.pool_ref.name;
}

-- `ctrl != nil && ctrl.UID == uid`
abbrev pub is_controller : String → Option OwnerReference → Bool
is_controller uid none = false
is_controller uid (some c) = c.uid == uid

-- `ref != nil && ref.UID == uid`
abbrev pub refers_to : String → Option ObjectReference → Bool
refers_to uid none = false
refers_to uid (some ref) = ref.uid == uid

module _ (k : Kube) where
  abbrev pub tell : String → String → String → Method k (Unit {0})
  tell kind reason message = modify λ s. (
    k.record_event
        (record { regarding = s.1.checkout.key; kind = kind; reason = reason; message = message })
        s.0,
    s.1,
  )

  abbrev set_cond : Condition → Method k (Unit {0})
  set_cond c = modify λ s. (s.0, note_cond c s.1)

  abbrev no_pool : Key → Condition
  no_pool key =
      condition unknown "PoolDoesNotExist"
        (k.sprintf "The pool %q does not exist." (object_key key ∷ []))

  abbrev pub none_available : Key → Condition
  none_available key =
      condition unknown "NotAvailable"
        (k.sprintf "The pool %q has no available PVCs to check out." (object_key key ∷ []))

  -- Any error of the pool's Load is reported as a pool that does not exist.
  abbrev pub pool_missing : Key → k.Error → Method k Bool
  pool_missing key e = do
    tell "Warning" "PoolAvailability" (k.sprintf "Pool %s does not exist" (object_key key ∷ []))
    set_cond (no_pool key)
    raise e

  abbrev pub empty_pool_error : Key → k.Error
  empty_pool_error key =
      k.mark_transient (k.errorf "pool %s has no available PVCs" (object_key key ∷ []))

  abbrev pub pool_empty : Key → Method k Bool
  pool_empty key = do
    tell "Warning" "PoolAvailability" "Pool has no available PVCs to check out"
    set_cond (none_available key)
    raise (empty_pool_error key)

  -- The oldest of the available replicas gives its volume.
  unfoldable pub pick : Key → List PoolReplica → Method k Bool
  pick key [] = pool_empty key
  pick key (r ∷ rs) = do
    first ← deref (get_elem? (k.sort_replicas created_before (r ∷ rs)) 0)
    v ← deref first.volume
    modify (λ s. (s.0, put_volume locked (some v) s.1))
    pure true

  abbrev pub load_from : Pool → Method k Bool
  load_from pool (w, cs) =
      let (res, s) = Load.load k (w, new_pool_state pool) in
      continue res (λ found. if found then pick pool.key s.1.available else pure false) (s.0, cs)

  abbrev pub with_pool : Key → Outcome k.Error Bool → Pool → Method k Bool
  with_pool key (ok _) pool s = load_from pool s
  with_pool key (err e) pool s = pool_missing key e s
  with_pool key panic pool s = (panic, s)
  with_pool key timeout pool s = (timeout, s)

  unfoldable pub load_from_pool : Method k Bool
  load_from_pool (w, cs) =
      let key = pool_key cs.checkout in
      let (res, s) = k.require_pool (w, new_pool key) in with_pool key res s.1 (s.0, cs)

  abbrev pub conflict : Pair → CheckoutState → Condition
  conflict p cs = condition unknown "Conflict" (
      k.sprintf "A non-controlled PVC with the name %s already exists."
        (text (claim_of p cs).key.name ∷ []))

  abbrev pub conflict_error : k.Error
  conflict_error =
      k.mark_transient (k.errorf "a PVC with this checkout's desired name already exists" [])

  -- The volume that the claim names is taken over if it points back at the claim.
  abbrev pub adopt_volume : Pair → Method k (Unit {0})
  adopt_volume p (w, cs) =
      let (res, s) = k.load_pv (w, k.new_pv (claim_of p cs).spec.volume_name) in
      continue res
        (λ found.
          if found && refers_to (claim_of p cs).metadata.uid s.1.spec.claim_ref
          then modify (λ t. (t.0, put_volume p (some s.1) t.1))
          else pure tt)
        (s.0, cs)

  -- The loop's body in Load.
  unfoldable pub load_pair : Pair → Method k (Unit {0})
  load_pair p = do
    found ← on_claim k p k.load_pvc
    cs ← gets (λ s. s.1)
    if not found
        then pure tt
        else if is_controller cs.checkout.metadata.uid (k.controller_of (claim_of p cs).metadata)
        then adopt_volume p
        else (do set_cond (conflict p cs); raise conflict_error)

  unfoldable pub load : Method k Bool
  load = do
    load_pair locked
    load_pair final
    cs ← gets (λ s. s.1)
    if is_bound cs.claim.phase || is_some cs.locked_volume then pure true else load_from_pool
