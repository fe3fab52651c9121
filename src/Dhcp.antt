-- ===== src/Dhcp.antt =====
-- internal/dhcp: the DHCP server. Modelled are the arithmetic of the pool and the lease tables.
pub mod Addr
pub mod Carry
pub mod Pool
pub mod Leases
pub mod Offer
pub mod NewClient
pub mod Free
pub mod Allocate
pub mod Orphan
mod Tests
