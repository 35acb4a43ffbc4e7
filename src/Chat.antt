-- ===== src/Chat.antt =====
-- The module `chat`: users, members and rooms.
pub mod User
pub mod Member
pub mod Room
