-- ===== src/Adapter/Request.antt =====
-- The translation of requests: internal/adapter/anthropic_provider.go, anthropic_request_content.go and
-- anthropic_request_fast.go.
pub mod Types
pub mod Content
pub mod General
pub mod Fast
pub mod Roles
pub mod Agreement
