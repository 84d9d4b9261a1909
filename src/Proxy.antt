-- ===== src/Proxy.antt =====
-- The gateway proxy, internal/proxy/proxy.go: attempts at a provider, retries, failover.
pub mod Timeout
pub mod Classify
pub mod State
pub mod Attempts
pub mod Serve
pub mod Ledger
pub mod Accounts
pub mod Spending
pub mod Answer
pub mod Forwarded
