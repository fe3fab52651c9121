-- ===== src/Geoip.antt =====
-- internal/geoip: the address tables behind geo-blocking.
pub mod Search
pub mod Bits
pub mod Cidrs
pub mod Blocker
pub mod Countries
pub mod Asn
pub mod Pruned
pub mod Exact
pub mod Ranges
pub mod Merge
pub mod Lookup
pub mod Nets
pub mod Starts
pub mod Held
mod Tests
