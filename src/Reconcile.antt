-- ===== src/Reconcile.antt =====
-- pkg/controller/reconciler: one reconcile of a pool (Reconcile/Pools) and of a checkout
-- (Reconcile/Checkouts).
pub mod Reply
pub mod Pools
pub mod Checkouts
pub mod Settled
pub mod SettledPool
pub mod OwnedPool
pub mod OwnedCheckout
pub mod Interleaving
pub mod Locks
pub mod PoolEnds
pub mod CheckoutEnds
