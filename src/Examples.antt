-- ===== src/Examples.antt =====
-- The theorems at concrete inputs.
mod Requests
mod Providers
mod Bodies
mod Limits
mod Clients
mod Headers
mod Streams
mod Responses
mod Tools
mod Configs
mod Calls
mod Addresses
