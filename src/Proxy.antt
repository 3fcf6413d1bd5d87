-- ===== src/Proxy.antt =====
-- The local proxy of src/client/local_proxy.cpp: what it reads off a request (Target, Head), what it
-- answers and sends on (Request), and the session behind a connection (Pump).
pub mod Target
pub mod Head
pub mod Request
pub mod Pump
pub mod Lines
pub mod Rebuilt
pub mod Parsed
pub mod Reread
pub mod Connect
mod Examples
