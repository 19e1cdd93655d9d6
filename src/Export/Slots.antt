-- ===== src/Export/Slots.antt =====
-- The ceilings of internal/service/export_scheduler.go on running and on queued exports.
pub mod Tables
pub mod Writes
pub mod Admissions
pub mod Starts
pub mod Ends
pub mod Histories
