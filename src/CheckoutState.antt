-- ===== src/CheckoutState.antt =====
-- CheckoutState of pkg/controller/app/checkout_state.go, and ConfigureCheckout of checkout.go: how
-- a checkout takes a volume from a pool, through a locked claim, and binds it to its own claim.
pub mod Pairs
pub mod Load
pub mod Persist
pub mod Configure
pub mod Status
pub mod Loading
pub mod LoadEnds
pub mod OwnedLoad
pub mod OwnedPick
pub mod OwnedPersist
pub mod OwnedConfigure
pub mod Taken
pub mod TakenPick
pub mod Binding
pub mod Retry
pub mod Stored
pub mod BothStored
pub mod BothPairs
pub mod Reload
pub mod Safety
pub mod Oldest
pub mod StatusLaws
pub mod Ownership
