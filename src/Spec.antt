-- ===== src/Spec.antt =====
-- module/game_spec: the data of a game that the interpreter works on.
pub mod Expression
pub mod Pointer
pub mod Rule
pub mod State
mod Tests
