-- ===== src/Networking.antt =====
-- Sockets (module/networking_websocket).
pub mod BeastSocket
pub mod Threads
mod Tests
