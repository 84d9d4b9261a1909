-- ===== src/BodyScan.antt =====
-- internal/middleware/body_scan.go: the scanner that inspects a request body without decoding it.
-- A position `idx` of the body is modelled by the bytes that are still unread, `body[idx:]`, so
-- `idx` is `len(body)` less their number, and `idx >= len(body)` says that none is left.
pub mod Result
pub mod Lexer
pub mod Value
pub mod Inspect
pub mod Progress
pub mod Total
pub mod Settles
pub mod Terminates
