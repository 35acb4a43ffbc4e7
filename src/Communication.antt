-- ===== src/Communication.antt =====
-- module/common_communication: signals, and the channels between the threads of the server.
pub mod Signal
pub mod Channel
mod Tests
