-- ===== src/Limiter.antt =====
-- internal/middleware/local_limiter.go and `RateLimitMiddleware` of ratelimit.go.
pub mod Bucket
pub mod Bound
pub mod Keyed
pub mod Fresh
pub mod Address
