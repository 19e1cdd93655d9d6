-- ===== src/Export/Fencing.antt =====
-- The lease as a fence between two executions of one export.
pub mod Disowned
pub mod Grants
pub mod Takeovers
pub mod Live
pub mod Revoked
