-- ===== src/Dnssec.antt =====
-- internal/dnssec: local validation of signed answers.
pub mod Keys
pub mod Anchors
pub mod Bundled
pub mod Zones
pub mod Trust
pub mod Denial
pub mod Validate
pub mod Answers
pub mod Order
mod Tests
