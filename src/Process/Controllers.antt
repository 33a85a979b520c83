-- ===== src/Process/Controllers.antt =====
-- AddPoolReconcilerToManager and AddCheckoutReconcilerToManager of pkg/controller/reconciler.
use pvpool.Prelude.{ℕ, pos, List, [], ◌∷◌}
use pvpool.Exec.{Outcome}
use pvpool.Api.Core.{Key}
use pvpool.Kube.{Kube}
use pvpool.Reconcile.Reply.{Reply}
use pvpool.Reconcile.Pools
use pvpool.Reconcile.Checkouts
use pvpool.Process.Config.{Config, Duration}

pub data Kind : Type 0 where
  pool checkout persistent_volume_claim job : Kind

pub data RateLimiter : Type 0 where
  -- the delay of an item's first failure, doubled with each further one, and its bound
  item_exponential_failure : (base max : Duration) → RateLimiter
  -- so many a second, and a burst
  bucket : (rate burst : ℕ) → RateLimiter
  -- the one that waits longer
  max_of : RateLimiter → RateLimiter → RateLimiter

-- What the builder is told: the kind to reconcile, the kinds of objects that one owns, the kinds of
-- objects that are annotated as dependencies of one, and the options.
pub record Controller (World Error : Type 0) : Type 0 where
  pub watched : Kind
  pub owned : List Kind
  pub dependent : List Kind
  pub rate_limiter : RateLimiter
  pub reconcile : Key → World → Outcome Error (Reply Error) × World

-- Five milliseconds.
abbrev base_delay : Duration
base_delay = pos 5000000

unfoldable pub limiter_of : Config → RateLimiter
limiter_of cfg =
    max_of (item_exponential_failure base_delay cfg.controller_max_reconcile_backoff_duration)
      (bucket 10 100)

module _ (k : Kube) where
  unfoldable pub pool_controller : Config → Controller k.World k.Error
  pool_controller cfg = record {
    watched = pool;
    owned = persistent_volume_claim ∷ [];
    dependent = job ∷ [];
    rate_limiter = limiter_of cfg;
    reconcile = Pools.reconcile k;
  }

  unfoldable pub checkout_controller : Config → Controller k.World k.Error
  checkout_controller cfg = record {
    watched = checkout;
    owned = persistent_volume_claim ∷ [];
    dependent = [];
    rate_limiter = limiter_of cfg;
    reconcile = Checkouts.reconcile k;
  }
