-- ===== src/Meta.antt =====
-- The identifiers of a request, internal/middleware/requestmeta.go.
pub mod Request
pub mod Traced
