-- ===== src/PoolState/Converged.antt =====
-- One Persist of a pool, from its first loop to its last.
use pvpool.Prelude.{ℕ, ◌<◌, ◌≡◌, sym, ap, subst, ◌∙◌, arith, [], length, pos}
use pvpool.Exec.{ok}
use pvpool.Exec.Rules.{>>=-eq-ok}
use pvpool.Api.State.{PoolState}
use pvpool.Kube.{Kube}
use pvpool.Kube.Laws.{RandLaws}
use pvpool.PoolState.Scale.{requested, persist_scale}
use pvpool.PoolState.Persist.{persist, persist_initializing, persist_available}
use pvpool.PoolState.Initializing.{persist_initializing-IsPromoted}
use pvpool.PoolState.Reported.{persist_available-IsReported}
use pvpool.PoolState.Convergence.{active, Approaches, persist_scale-Approaches}
use pvpool.PoolState.Stale.{persist_stale-IsCleared}

-- The number of active replicas has moved towards the requested `q`, and no stale one is left.
pub record IsConverging (q : ℕ) (ps ps' : PoolState) : Type 0 where
  pub approaches : Approaches q (active ps) (active ps')
  pub no_stale : ps'.stale ≡ []

module _ (k : Kube) where
  -- With q replicas requested and fewer than 2^31 of them active, a whole Persist of a pool that
  -- succeeds brings the number of active replicas towards q and not past it, and leaves no stale
  -- replica behind.
  pub persist-IsConverging :
      (q : ℕ) (s s' : k.World × PoolState)
      → RandLaws k
      → active s.1 < 2147483648
      → requested s.1.pool ≡ pos q
      → persist k s ≡ (ok tt, s')
      → IsConverging q s.1 s'.1
  unfolding persist
  persist-IsConverging q s s' laws small req h =
      let (_, s1, e1, h1) = >>=-eq-ok (persist_initializing k) _ s h in
      let (_, s2, e2, h2) = >>=-eq-ok (persist_available k) _ s1 h1 in
      let (_, s3, e3, h3) = >>=-eq-ok (persist_scale k) _ s2 h2 in
      let promoted = persist_initializing-IsPromoted k s s1 e1 in
      let said = persist_available-IsReported k s1 s2 e2 in
      let cleared = persist_stale-IsCleared k laws s3 s' h3 in
      let same2 : active s2.1 ≡ active s.1 =
        omega (arith, promoted.same_active, said.same_number, ap length said.same_initializing) in
      let same3 : active s'.1 ≡ active s3.1 =
        omega (arith, ap length cleared.same_initializing, ap length cleared.same_available) in
      let a =
        persist_scale-Approaches k q s2 s3 laws (omega (arith, same2, small))
          (ap requested (said.same_pool ∙ promoted.same_pool) ∙ req) e3 in
      record {
        approaches =
            subst (λ n. Approaches q n (active s'.1)) same2
              (subst (Approaches q (active s2.1)) (sym same3) a);
        no_stale = cleared.no_stale;
      }
