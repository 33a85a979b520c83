-- ===== src/PoolState/Persist.antt =====
-- persistInitializing, persistAvailable, persistStale and Persist of
-- pkg/controller/app/pool_state.go.
use pvpool.Prelude.{
  ℕ, zero, suc, ◌-◌, Bool, true, false, Option, none, some, List, [], ◌∷◌, ◌++◌, if◌then◌else◌,
  length, get_elem?, set, take, ltb,
}
use pvpool.Exec.{ok, cut_off, pure, modify, gets, deref, continue, ◌>>=◌, ◌>>◌}
use pvpool.Api.Core.{JobCondition, is_true, unknown}
use pvpool.Api.Resources.{Condition, available, settlement}
use pvpool.Api.State.{PoolReplica, PoolState, set_pool_cond}
use pvpool.Kube.{Kube, text}
use pvpool.Condition.{is_status, condition}
use pvpool.Replica
use pvpool.Replica.Phase.{is_available}
use pvpool.PoolState.Slots.{Method, call, stale, pop_from, delete_popped}
use pvpool.PoolState.Scale.{tell, persist_scale}

abbrev pub minimum_available : Condition
minimum_available =
    condition is_true "MinimumReplicasAvailable"
      "One or more replicas are available to be checked out."

module _ (k : Kube) where
  abbrev with_initializing : List PoolReplica → k.World × PoolState → k.World × PoolState
  with_initializing rs s = (s.0, record s.1 { initializing = rs })

  -- `ps.Initializing[i].Persist(ctx, cl)`
  abbrev pub persist_at : ℕ → Method k (Unit {0})
  persist_at i (w, ps) =
      (do
        r ← deref (get_elem? ps.initializing i)
        (λ _.
            let (res, s) = Replica.persist k ps.pool (w, r) in
            (res, (s.0, record ps { initializing = set ps.initializing i s.1 }))))
        (w, ps)

  -- Moves the replica at `i` to the available ones if it is one by now; the last takes its place.
  abbrev pub promote : ℕ → Method k Bool
  promote i = do
    ps ← gets (λ s. s.1)
    r ← deref (get_elem? ps.initializing i)
    last ← deref (get_elem? ps.initializing (length ps.initializing - 1))
    if is_available r
        then (do
          modify (λ s. (
            s.0,
            record s.1 {
              initializing = take (length ps.initializing - 1) (set ps.initializing i last);
              available = ps.available ++ r ∷ [];
            },
          ))
          pure true)
        else pure false

  -- The loop of persistInitializing at position `i`.
  unfoldable pub initializing_from : ℕ → ℕ → Method k (Unit {0})
  initializing_from zero i s = cut_off s
  initializing_from (suc fuel) i s =
      (if ltb i (length s.1.initializing)
          then (do
            persist_at i
            moved ← promote i
            initializing_from fuel (if moved then i else suc i))
          else pure tt)
        s

  unfoldable pub persist_initializing : Method k (Unit {0})
  persist_initializing s = initializing_from (suc (length s.1.initializing)) 0 s

  -- The loop of persistAvailable, with the replicas that it has passed.
  unfoldable pub available_from : List PoolReplica → List PoolReplica → Method k (Unit {0})
  available_from passed [] s = (ok tt, s)
  available_from passed (r ∷ rs) (w, ps) =
      let (res, s) = Replica.persist k ps.pool (w, r) in
      continue res
        (λ _. do
          modify (λ t.
              (t.0, record t.1 { conds = set_pool_cond available minimum_available t.1.conds }))
          available_from (passed ++ s.1 ∷ []) rs)
        (s.0, record ps { available = passed ++ s.1 ∷ rs })

  unfoldable pub persist_available : Method k (Unit {0})
  persist_available s = available_from [] s.1.available s

  abbrev pub job_failed : JobCondition → Condition
  job_failed fc = condition unknown "InitJobFailed" (
      k.sprintf "A PVC could not be initialized because its job failed: %s: %s"
        (text fc.reason ∷ text fc.message ∷ []))

  -- The event and the condition for a stale replica whose init job failed.
  unfoldable pub report_failure : Option JobCondition → Method k (Unit {0})
  report_failure none = pure tt
  report_failure (some fc) =
      if is_status fc.status is_true
      then (do
        tell k "Warning" "StaleReplica" (
            k.sprintf "Deleting stale replica with failed init job: %s: %s"
              (text fc.reason ∷ text fc.message ∷ []))
        modify
            (λ s. (s.0, record s.1 { conds = set_pool_cond settlement (job_failed fc) s.1.conds })))
      else pure tt

  -- `if !found { break }`, the report and the deletion, and the rest of the loop.
  abbrev pub retire : Option PoolReplica → Method k (Unit {0}) → Method k (Unit {0})
  retire none rest = pure tt
  retire (some r) rest =
      report_failure (k.failed_condition r.init_job) >> (delete_popped k stale r >> rest)

  -- The loop of persistStale.
  unfoldable pub stale_loop : ℕ → k.Rng → Method k (Unit {0})
  stale_loop zero rng = cut_off
  stale_loop (suc fuel) rng = pop_from k stale rng >>= λ found. retire found (stale_loop fuel rng)

  unfoldable pub persist_stale : Method k (Unit {0})
  persist_stale = do rng ← call k k.new_rng; (λ s. stale_loop (suc (length s.1.stale)) rng s)

  unfoldable pub persist : Method k (Unit {0})
  persist = do persist_initializing; persist_available; persist_scale k; persist_stale
