-- ===== src/Body.antt =====
-- internal/middleware/body.go: the request body is read once, inspected, and extended by
-- `include_usage` for the provider. `buildUpstreamBody` and `extractRequestBodyMeta`, which only
-- tests call, are left out.
pub mod Inject
pub mod Span
pub mod Extends
