-- ===== src/PoolState/StaleEnds.antt =====
-- How the loop of persistStale ends.
use pvpool.Prelude.{
  ℕ, zero, suc, ◌<◌, ◌≡◌, refl, ap, sym, ◌∙◌, Option, none, some, List, arith, length,
}
use pvpool.Exec.{Outcome, ok, panic, timeout, Returns, Exec}
use pvpool.Exec.Rules.{Returns-bind, bind_cases}
use pvpool.Api.Core.{JobCondition}
use pvpool.Api.State.{PoolReplica, PoolState}
use pvpool.Kube.{Kube}
use pvpool.Kube.Laws.{RandLaws, DeleteLaws}
use pvpool.Replica.Removal.{Popped}
use pvpool.PoolState.Slots.{stale, put_in, call, pop_from, delete_popped}
use pvpool.PoolState.Persist.{report_failure, retire, stale_loop, persist_stale}
use pvpool.PoolState.Deletion.{pop_from_run, delete_popped_run, delete_popped-Returns}

module _ (k : Kube) (laws : RandLaws k) (returns : DeleteLaws k) where
  report_failure-Returns :
      (o : Option JobCondition) (s : k.World × PoolState) → Returns (report_failure k o s).0
  unfolding report_failure
  report_failure-Returns none s = tt
  report_failure-Returns (some fc) s = ground arith

  stale-report_failure :
      (o : Option JobCondition) (s : k.World × PoolState)
      → (report_failure k o s).1.1.stale ≡ s.1.stale
  unfolding report_failure
  stale-report_failure none s = refl
  stale-report_failure (some fc) s = ground arith

  retire-Returns :
      (rest : Exec k.Error (k.World × PoolState) (Unit {0})) (n : ℕ)
      → ((t : k.World × PoolState) → length t.1.stale < n → Returns (rest t).0)
      → (ps : PoolState) (found : Option PoolReplica) (s1 : k.World × PoolState)
        (rs : List PoolReplica)
      → length ps.stale < suc n
      → s1.1 ≡ put_in stale rs ps
      → Popped {E = k.Error} ps.stale (ok found) rs
      → Returns (retire k found rest s1).0
  retire-Returns rest n ih ps none s1 rs short p popped = tt
  retire-Returns rest n ih ps (some r) s1 rs short p popped =
      Returns-bind (report_failure k (k.failed_condition r.init_job)) _ s1
        (report_failure-Returns (k.failed_condition r.init_job) s1)
        λ _ s2 e2.
          let same : s2.1.stale ≡ rs =
            ap (λ (q : Outcome k.Error (Unit {0}) × (k.World × PoolState)). q.1.1.stale) (sym e2)
            ∙ stale-report_failure (k.failed_condition r.init_job) s1
            ∙ ap (λ (t : PoolState). t.stale) p in
          Returns-bind (delete_popped k stale r) (λ _. rest) s2
            (delete_popped-Returns k laws returns stale r s2)
            λ _ s3 e3.
              ih s3
                (rw (delete_popped_run k stale r s2 (ok tt) s3 e3, same) (omega (arith, popped.1)))

  -- One more round than there are stale replicas is enough.
  stale_loop-Returns :
      (fuel : ℕ) (rng : k.Rng) (s : k.World × PoolState)
      → length s.1.stale < fuel
      → Returns (stale_loop k fuel rng s).0
  unfolding stale_loop
  stale_loop-Returns zero rng s short = absurd (omega arith)
  stale_loop-Returns (suc fuel) rng s short =
      bind_cases (λ q. Returns q.0) (pop_from k stale rng)
        (λ found. retire k found (stale_loop k fuel rng)) s
        (λ found s1 e.
          let (rs, p, popped) = pop_from_run k laws stale rng s (ok found) s1 e in
          retire-Returns (stale_loop k fuel rng) fuel (stale_loop-Returns fuel rng) s.1 found s1 rs
            short p popped)
        (λ _ _ _. tt) (λ s1 e. (pop_from_run k laws stale rng s panic s1 e).2)
        (λ s1 e. (pop_from_run k laws stale rng s timeout s1 e).2)

  -- persistStale always comes to an end, with success or an error, and never panics.
  pub persist_stale-Returns : (s : k.World × PoolState) → Returns (persist_stale k s).0
  unfolding persist_stale
  persist_stale-Returns s =
      Returns-bind (call k k.new_rng) _ s (returns.new_rng-Returns s.0)
        λ rng s0 _. stale_loop-Returns _ rng s0 (omega arith)
