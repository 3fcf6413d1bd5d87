-- ===== src/WebSocket.antt =====
-- src/common/websocket.hpp and websocket.cpp: framing, fragments and the life of a connection.
pub mod Frame
pub mod State
pub mod Send
pub mod Read
pub mod Accept
pub mod Handshake
pub mod Loop
pub mod Messages
pub mod Fragments
pub mod Closing
pub mod Life
mod Examples
