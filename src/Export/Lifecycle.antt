-- ===== src/Export/Lifecycle.antt =====
-- The life cycle of an export job under the operations of Export.Operations.
pub mod Moves
pub mod Requests
pub mod Claims
pub mod Recoveries
pub mod Histories
