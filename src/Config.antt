-- ===== src/Config.antt =====
-- The configuration of the gateway, internal/config/config.go.
pub mod Types
pub mod Normalize
pub mod Resolve
pub mod Validate
pub mod Accepts
pub mod Load
pub mod WellFormed
pub mod Loaded
pub mod Clients
