-- ===== src/PoolState/Stale.antt =====
-- What persistStale (pkg/controller/app/pool_state.go) does to the three lists.
use pvpool.Prelude.{ℕ, zero, suc, ◌≡◌, refl, sym, ap, ◌∙◌, Option, none, some, List, [], arith}
use pvpool.Exec.{Outcome, ok, Exec}
use pvpool.Exec.Rules.{part-run, >>=-eq-ok}
use pvpool.Api.Core.{JobCondition}
use pvpool.Api.State.{PoolReplica, PoolState}
use pvpool.Kube.{Kube}
use pvpool.Kube.Laws.{RandLaws}
use pvpool.Replica.Removal.{Popped}
use pvpool.PoolState.Slots.{stale, put_in, call, pop_from, delete_popped}
use pvpool.PoolState.Deletion.{pop_from_run, delete_popped_run}
use pvpool.PoolState.Persist.{report_failure, retire, stale_loop, persist_stale}

-- The live replicas are as before, and there is no stale one.
pub record IsCleared (ps ps' : PoolState) : Type 0 where
  pub same_initializing : ps'.initializing ≡ ps.initializing
  pub same_available : ps'.available ≡ ps.available
  pub no_stale : ps'.stale ≡ []

module _ (k : Kube) where
  -- Reporting a failed job changes no list of replicas.
  report_failure_keeps :
      (o : Option JobCondition) (s : k.World × PoolState)
      → let ps = (report_failure k o s).1.1 in
        (ps.initializing ≡ s.1.initializing) × (ps.available ≡ s.1.available)
  unfolding report_failure
  report_failure_keeps none s = (refl, refl)
  report_failure_keeps (some fc) s = ground arith

  module _ (laws : RandLaws k) where
    retire_run :
        (rest : Exec k.Error (k.World × PoolState) (Unit {0}))
        → ((t t' : k.World × PoolState) → rest t ≡ (ok tt, t') → IsCleared t.1 t'.1)
        → (ps : PoolState) (found : Option PoolReplica) (s1 s' : k.World × PoolState)
          (rs : List PoolReplica)
        → s1.1 ≡ put_in stale rs ps
        → Popped {E = k.Error} ps.stale (ok found) rs
        → retire k found rest s1 ≡ (ok tt, s')
        → IsCleared ps s'.1
    retire_run rest ih ps none s1 s' rs p popped h =
        let q : s'.1 ≡ put_in stale rs ps = part-run h ∙ p in
        record {
          same_initializing = ap (λ (t : PoolState). t.initializing) q;
          same_available = ap (λ (t : PoolState). t.available) q;
          no_stale = ap (λ (t : PoolState). t.stale) q ∙ popped.1;
        }
    retire_run rest ih ps (some r) s1 s' rs p popped h =
        let (_, s2, e2, h2) = >>=-eq-ok (report_failure k (k.failed_condition r.init_job)) _ s1 h in
        let (_, s3, e3, h3) = >>=-eq-ok (delete_popped k stale r) _ s2 h2 in
        let d = delete_popped_run k stale r s2 (ok tt) s3 e3 in
        let c = ih s3 s' h3 in
        let (f0, f1) = report_failure_keeps (k.failed_condition r.init_job) s1 in
        let back : (report_failure k (k.failed_condition r.init_job) s1).1.1 ≡ s2.1 =
          ap (λ (t : Outcome k.Error (Unit {0}) × (k.World × PoolState)). t.1.1) e2 in
        record {
          same_initializing =
              c.same_initializing
              ∙ ap (λ (t : PoolState). t.initializing) (d ∙ sym back)
              ∙ f0
              ∙ ap (λ (t : PoolState). t.initializing) p;
          same_available =
              c.same_available
              ∙ ap (λ (t : PoolState). t.available) (d ∙ sym back)
              ∙ f1
              ∙ ap (λ (t : PoolState). t.available) p;
          no_stale = c.no_stale;
        }

    stale_loop-IsCleared :
        (fuel : ℕ) (rng : k.Rng) (s s' : k.World × PoolState)
        → stale_loop k fuel rng s ≡ (ok tt, s')
        → IsCleared s.1 s'.1
    unfolding stale_loop
    stale_loop-IsCleared zero rng s s' h = absurd (cc)
    stale_loop-IsCleared (suc fuel) rng s s' h =
        let (found, s1, e, h1) = >>=-eq-ok (pop_from k stale rng) _ s h in
        let (rs, p, popped) = pop_from_run k laws stale rng s (ok found) s1 e in
        retire_run (stale_loop k fuel rng) (stale_loop-IsCleared fuel rng) s.1 found s1 s' rs p
          popped h1

    -- A persistStale that succeeds leaves no stale replica in the state, and the others as they were.
    pub persist_stale-IsCleared :
        (s s' : k.World × PoolState) → persist_stale k s ≡ (ok tt, s') → IsCleared s.1 s'.1
    unfolding persist_stale
    persist_stale-IsCleared s s' h =
        let (rng, s0, e0, h0) = >>=-eq-ok (call k k.new_rng) _ s h in
        let c = stale_loop-IsCleared _ rng s0 s' h0 in
        let same : s0.1 ≡ s.1 = part-run e0 in
        record {
          same_initializing = c.same_initializing ∙ ap (λ (t : PoolState). t.initializing) same;
          same_available = c.same_available ∙ ap (λ (t : PoolState). t.available) same;
          no_stale = c.no_stale;
        }
