-- ===== src/Clients.antt =====
-- internal/dnsserver/clients.go and acl.go: which clients may ask, and by which policy.
pub mod Acl
pub mod Router
pub mod Coherent
pub mod Stale
pub mod Open
mod Tests
