-- ===== src/Adapter/Tool.antt =====
-- The translation of a response with tools, internal/adapter/anthropic_response_tool_fast.go, and of
-- any response, in internal/adapter/anthropic_provider.go.
pub mod Quoted
pub mod Decoded
pub mod Translate
pub mod General
pub mod Agreement
pub mod Errors
