-- ===== src/Shards.antt =====
-- The sharded client maps that every abuse guard stands on.
pub mod Hash
pub mod Table
pub mod Evict
pub mod Invariant
mod Tests
