-- ===== src/Updater.antt =====
-- The self-update of the client: src/common/updater.cpp on Linux. What goes over the network and what
-- other programs do is a parameter.
pub mod Version
pub mod Fetch
pub mod Install
pub mod Json
mod Examples
