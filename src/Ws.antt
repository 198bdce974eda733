-- ===== src/Ws.antt =====
-- src/simple_socket/ws: WebSocket connections.
pub mod Frames
pub mod Listener
pub mod Handshake
pub mod Lifetime
pub mod Server
pub mod Client
