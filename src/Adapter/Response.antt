-- ===== src/Adapter/Response.antt =====
-- The fast translation of a response without tools, internal/adapter/anthropic_response_fast.go.
pub mod Lexer
pub mod Skip
pub mod Parse
pub mod Translate
pub mod Total
pub mod Loops
pub mod Terminates
pub mod Texts
pub mod Written
pub mod Completion
pub mod RoundTrip
