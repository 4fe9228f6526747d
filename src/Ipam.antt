-- ===== src/Ipam.antt =====
-- internal/ipam: the pool of external addresses and the choice of one for a Service.
pub mod Pool
pub mod Allocator
mod Tests
