-- ===== src/PoolState/Reported.antt =====
-- What persistAvailable (pkg/controller/app/pool_state.go) reports.
use pvpool.Exec.Rules.{part-run}
use pvpool.Prelude.{
  suc, ◌+◌, ◌≡◌, refl, sym, ◌∙◌, Option, some, List, [], ◌∷◌, ◌++◌, arith, length, length-append,
}
use pvpool.Exec.{Outcome, ok, err, panic, timeout, continue, modify, ◌>>◌}
use pvpool.Api.Resources.{Condition, available}
use pvpool.Api.State.{PoolReplica, PoolState, set_pool_cond}
use pvpool.Kube.{Kube}
use pvpool.Replica
use pvpool.PoolState.Persist.{minimum_available, available_from, persist_available}

-- The condition Available, where these replicas were persisted.
abbrev pub reported : List PoolReplica → Option Condition → Option Condition
reported [] before = before
reported (r ∷ rs) before = some minimum_available

-- What persisting the replicas `rs`, the last of the available ones, does.
pub record Reported (rs : List PoolReplica) (ps ps' : PoolState) : Type 0 where
  pub same_initializing : ps'.initializing ≡ ps.initializing
  pub same_stale : ps'.stale ≡ ps.stale
  pub same_pool : ps'.pool ≡ ps.pool
  pub same_number : length ps'.available ≡ length ps.available
  pub says : ps'.conds available ≡ reported rs (ps.conds available)

-- The lists keep their lengths, and the condition Available says so if there is a replica.
abbrev pub IsReported : PoolState → PoolState → Type 0
IsReported ps ps' = Reported ps.available ps ps'

module _ (k : Kube) where
  -- The round of the replica `r`, from what its Persist came to.
  after_persist :
      (passed rs : List PoolReplica) (r : PoolReplica) (ps : PoolState) (s' : k.World × PoolState)
      (d : Outcome k.Error (Unit {0}) × (k.World × PoolReplica))
      → ((x : PoolReplica) (t : k.World × PoolState)
          → length t.1.available ≡ length (passed ++ x ∷ []) + length rs
          → available_from k (passed ++ x ∷ []) rs t ≡ (ok tt, s')
          → Reported rs t.1 s'.1)
      → length ps.available ≡ length passed + suc (length rs)
      → continue {S = k.World × PoolState} d.0
          (λ _.
            modify (λ t.
              (t.0, record t.1 { conds = set_pool_cond available minimum_available t.1.conds }))
            >> available_from k (passed ++ d.1.1 ∷ []) rs)
          (d.1.0, record ps { available = passed ++ d.1.1 ∷ rs })
        ≡ (ok tt, s')
      → Reported (r ∷ rs) ps s'.1
  after_persist passed rs r ps s' (ok tt, (w, x)) ih len h =
      let number : length (passed ++ x ∷ rs) ≡ length passed + suc (length rs) =
        length-append passed (x ∷ rs) in
      let p =
        ih x _ (omega (arith, length-append passed (x ∷ rs), length-append passed (x ∷ []))) h in
      record {
        same_initializing = p.same_initializing;
        same_stale = p.same_stale;
        same_pool = p.same_pool;
        same_number = p.same_number ∙ number ∙ sym len;
        says = p.says ∙ reported_again rs;
      }
    where
      reported_again :
          (l : List PoolReplica) → reported l (some minimum_available) ≡ some minimum_available
      reported_again [] = refl
      reported_again (y ∷ l) = refl
  after_persist passed rs r ps s' (err e, t) ih len h = absurd (cc)
  after_persist passed rs r ps s' (panic, t) ih len h = absurd (cc)
  after_persist passed rs r ps s' (timeout, t) ih len h = absurd (cc)

  available_from-Reported :
      (passed rs : List PoolReplica) (s s' : k.World × PoolState)
      → length s.1.available ≡ length passed + length rs
      → available_from k passed rs s ≡ (ok tt, s')
      → Reported rs s.1 s'.1
  unfolding available_from
  available_from-Reported passed [] s s' len h =
      let same : s'.1 ≡ s.1 = part-run h in
      rw same (record {
        same_initializing = refl;
        same_stale = refl;
        same_pool = refl;
        same_number = refl;
        says = refl;
      })
  available_from-Reported passed (r ∷ rs) s s' len h =
      after_persist passed rs r s.1 s' (Replica.persist k s.1.pool (s.0, r))
        (λ x t. available_from-Reported (passed ++ x ∷ []) rs t s') len h

  -- A persistAvailable that succeeds keeps the other lists, the number of available replicas and the
  -- pool, and sets the condition Available to true if there is an available replica; without one
  -- it leaves the condition as it was.
  pub persist_available-IsReported :
      (s s' : k.World × PoolState) → persist_available k s ≡ (ok tt, s') → IsReported s.1 s'.1
  unfolding persist_available
  persist_available-IsReported s s' h =
      available_from-Reported [] s.1.available s s' (omega arith) h
