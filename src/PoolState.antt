-- ===== src/PoolState.antt =====
-- PoolState of pkg/controller/app/pool_state.go, and ConfigurePool of pool.go: the replicas of a
-- pool, sorted into initializing, available and stale ones.
pub mod Slots
pub mod Load
pub mod LoadEnds
pub mod Owned
pub mod OwnedLoad
pub mod Taken
pub mod OwnedPersist
pub mod OwnedScale
pub mod ScaleEnds
pub mod PersistEnds
pub mod Scale
pub mod Persist
pub mod Configure
pub mod Deletion
pub mod Classes
pub mod Scaling
pub mod Convergence
pub mod Stale
pub mod Retired
pub mod StaleEnds
pub mod Initializing
pub mod Promotion
pub mod InitializingEnds
pub mod ScaleErrors
pub mod StatusLaws
pub mod Reported
pub mod Converged
pub mod Rounds
