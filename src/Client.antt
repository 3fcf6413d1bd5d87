-- ===== src/Client.antt =====
-- The client's end of the tunnel: src/client/tunnel.hpp and src/client/tunnel.cpp.
pub mod State
pub mod Sessions
pub mod Url
pub mod Control
pub mod Server
mod Examples
