-- ===== src/Router.antt =====
-- internal/middleware/router.go: from a model name to the ordered list of candidate providers.
-- The cache of the route table holds the result of `build_route_table` for the same configuration
-- and is not modelled; the locks guard single loads and stores.
pub mod Order
pub mod Table
pub mod Preferred
pub mod Sound
