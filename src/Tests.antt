-- ===== src/Tests.antt =====
-- Concrete instances of the third-party code, and runs of the program on concrete inputs.
mod Cluster
mod Laws
mod Pools
mod Replicas
mod Sharing
mod Checkouts
mod Reconciles
mod Frames
mod Webhooks
mod Servers
mod Processes
mod Stores
mod Locks
mod LockLaws
mod Exclusion
mod Copies
