-- ===== src/Interpreter.antt =====
-- module/game_manager: the interpreter of games.
pub mod Library
pub mod Tokens
pub mod Attributes
pub mod Evaluate
pub mod Lists
pub mod Visit
pub mod Accept
pub mod Instance
mod Tests
