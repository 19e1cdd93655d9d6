-- ===== src/Outbox.antt =====
-- internal/outbox: the relay of audit_outbox records to the audit API.
pub mod Rows
pub mod Relay
pub mod Backoff
pub mod Finality
