-- ===== src/Domain.antt =====
-- internal/domain: the data that the services share.
pub mod Errors
pub mod Models
pub mod Equality
pub mod Identifiers
