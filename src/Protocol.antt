-- ===== src/Protocol.antt =====
-- src/common/protocol.hpp and protocol.cpp: the frames of the tunnel.
pub mod Frame
pub mod Json
pub mod Message
pub mod Examples
