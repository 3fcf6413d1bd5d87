-- ===== src/Server.antt =====
-- The sessions of one WSS connection on the server: src/server/session_manager.hpp and
-- src/server/session_manager.cpp.
pub mod State
pub mod Connect
pub mod Transfer
pub mod Quiet
pub mod Routing
pub mod Counts
pub mod Upgrade
pub mod Steps
mod Examples
