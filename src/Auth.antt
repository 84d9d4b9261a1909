-- ===== src/Auth.antt =====
-- The tokens of clients, internal/middleware/auth.go, and the models that a token may use,
-- internal/middleware/model_allowlist.go. The registry is built once from the configuration.
pub mod Tokens
pub mod Resolved
pub mod Allowed
