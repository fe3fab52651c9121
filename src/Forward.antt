-- ===== src/Forward.antt =====
-- internal/dnsserver/handler.go and internal/upstream/upstream.go: the choice of an upstream.
pub mod Breaker
pub mod Upstreams
pub mod Failover
pub mod Routes
mod Tests
