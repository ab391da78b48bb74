-- ===== src/Client.antt =====
-- client/: the optional cloud clients.
pub mod WebSocket
