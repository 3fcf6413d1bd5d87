-- ===== src/Ssrf.antt =====
-- src/common/ssrf.hpp and ssrf.cpp: which addresses a server may connect to.
pub mod Blocks
pub mod Cidr
pub mod Ipv4
pub mod Ipv6
pub mod Guard
pub mod Shape
pub mod Safety
pub mod Target
mod Examples
