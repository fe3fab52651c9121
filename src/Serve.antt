-- ===== src/Serve.antt =====
-- internal/dnsserver/handler.go: `serve`, the path of a query through the server.
pub mod State
pub mod Guards
pub mod Reverse
pub mod Answers
pub mod Finish
pub mod Kept
pub mod KeptAnswers
pub mod Checks
pub mod KeptFinish
pub mod Says
pub mod Steps
pub mod Spoofed
pub mod Counted
pub mod Banned
pub mod Trapped
pub mod Answered
pub mod Cached
pub mod Early
mod Tests
