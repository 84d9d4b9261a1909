-- ===== src/Adapter.antt =====
-- The adapters of internal/adapter, which translate between the chat API of the gateway and that of
-- a provider.
pub mod Json
pub mod Stream
pub mod Response
pub mod Tool
pub mod Request
