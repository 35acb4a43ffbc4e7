-- ===== src/Daemon.antt =====
-- module/server_daemon: the commands that users type, and the routing of what they send.
pub mod Config
pub mod MainLoop
pub mod RoomCommands
pub mod GlobalCommands
pub mod Routing
pub mod InstanceController
pub mod Permissions
pub mod Upkeep
mod Tests
