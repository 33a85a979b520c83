-- ===== src/PoolState/Rounds.antt =====
-- Persist of a pool (pkg/controller/app/pool_state.go), reconcile after reconcile.
use pvpool.Prelude.{ℕ, zero, suc, ◌+◌, ◌≤◌, ◌<◌, ◌≡◌, arith, pos}
use pvpool.Exec.{ok}
use pvpool.Api.State.{PoolState}
use pvpool.Kube.{Kube}
use pvpool.Kube.Laws.{RandLaws}
use pvpool.PoolState.Scale.{requested}
use pvpool.PoolState.Persist.{persist}
use pvpool.PoolState.Convergence.{active, Approaches, from_below, from_above, stays}
use pvpool.PoolState.Converged.{persist-IsConverging}

module _ (k : Kube) (q : ℕ) where
  -- So many times Persist has succeeded with q replicas requested. The state that the next one
  -- starts from has as many active replicas as the one before left.
  pub data Rounds : ℕ → k.World × PoolState → k.World × PoolState → Type 0 where
    done : {s : k.World × PoolState} → Rounds zero s s
    round :
        {m : ℕ} {s t u v : k.World × PoolState}
        → requested s.1.pool ≡ pos q
        → persist k s ≡ (ok tt, t)
        → active u.1 ≡ active t.1
        → Rounds m u v
        → Rounds (suc m) s v

  down :
      (m n n' n'' : ℕ)
      → Approaches q n n'
      → n'' ≡ n'
      → n < 2147483648
      → q ≤ n
      → n ≤ q + suc m
      → (q ≤ n'') × (n'' ≤ q + m) × (n'' < 2147483648)
  down m n n' n'' (from_below below _ _) kept small enough few =
      absurd (omega (arith, below, enough))
  down m n n' n'' (from_above above less) kept small enough few =
      omega (arith, above, less, kept, small, few)
  down m n n' n'' (stays same same') kept small enough few = omega (arith, same, same', kept, small)

  up : (n n' n'' : ℕ) → Approaches q n n' → n'' ≡ n' → n ≤ q → (n ≤ n'') × (n'' ≤ q)
  up n n' n'' (from_below _ more most) kept few = omega (arith, more, most, kept)
  up n n' n'' (from_above above _) kept few = absurd (omega (arith, above, few))
  up n n' n'' (stays same same') kept few = omega (arith, same, same', kept)

  module _ (laws : RandLaws k) where
    -- A pool with too many replicas, fewer than 2^31, has exactly as many as requested after as many
    -- successful rounds as it had replicas too many, and keeps that number in all further rounds;
    -- where the request stays the same and each round starts with as many active replicas as the one
    -- before has left.
    pub rounds-settle :
        (m : ℕ) (s v : k.World × PoolState)
        → Rounds m s v
        → active s.1 < 2147483648
        → q ≤ active s.1
        → active s.1 ≤ q + m
        → active v.1 ≡ q
    rounds-settle zero s v done small enough few = omega (arith, enough, few)
    rounds-settle (suc m) s v (round {t = t} {u = u} req run kept rest) small enough few =
        let (enough', few', small') =
          down m (active s.1) (active t.1) (active u.1)
            (persist-IsConverging k q s t laws small req run).approaches kept small enough few in
        rounds-settle m u v rest small' enough' few'

    -- A pool with too few replicas never comes to have more than requested.
    pub rounds-bounded :
        (m : ℕ) (s v : k.World × PoolState)
        → Rounds m s v
        → q < 2147483648
        → active s.1 ≤ q
        → (active s.1 ≤ active v.1) × (active v.1 ≤ q)
    rounds-bounded zero s v done small few = omega (arith, few)
    rounds-bounded (suc m) s v (round {t = t} {u = u} req run kept rest) small few =
        let (more, few') =
          up (active s.1) (active t.1) (active u.1)
            (persist-IsConverging k q s t laws (omega (arith, few, small)) req run).approaches kept
            few in
        let (more', most) = rounds-bounded m u v rest small few' in omega (arith, more, more', most)
