-- ===== src/Queue.antt =====
-- The outbound delivery queue of `internal/queue`: message metadata and a due index in the
-- key-value store, claimed by the nodes of a deployment, and message bodies in the blob store.
pub mod Message
pub mod Spool
pub mod Admin
pub mod Claim
pub mod Outcome
pub mod Process
pub mod Index
pub mod System
pub mod Fencing
pub mod Retention
pub mod Pruning
pub mod Delivery
