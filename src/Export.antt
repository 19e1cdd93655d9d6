-- ===== src/Export.antt =====
-- The export jobs of internal/service: queue, leases, execution plans and terminal states.
pub mod Lease
pub mod Plan
pub mod Checkpoint
pub mod Queue
pub mod Claim
pub mod Recover
pub mod Owner
pub mod Terminal
pub mod Operations
pub mod Scheduler
pub mod Dispatch
pub mod Facts
pub mod Slots
pub mod Lifecycle
pub mod Fencing
