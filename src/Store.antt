-- ===== src/Store.antt =====
-- internal/store: the snapshot document and how it is updated.
pub mod Control
pub mod Cas
pub mod TenantLedger
