-- ===== src/Game.antt =====
-- The modules `game` and `server_daemon`'s games.
pub mod Controller
pub mod Simon
