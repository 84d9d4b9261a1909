-- ===== src/Adapter/Stream.antt =====
-- The translation of a stream of server-sent events, internal/adapter/stream_translator.go.
pub mod Lines
pub mod Chunks
pub mod Dispatch
pub mod Run
pub mod Groups
pub mod Items
pub mod Refines
