-- ===== src/Http.antt =====
-- internal/httpapi: the tenant scope of a request and the mapping of errors to responses.
pub mod Errors
pub mod Scope
