-- ===== src/Ws.antt =====
-- internal/adapters/transport/ws: the WebSocket transport.
pub mod Conn
pub mod Notifier
pub mod Client
pub mod Sent
pub mod Server
pub mod Dial
