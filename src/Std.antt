-- ===== src/Std.antt =====
-- What the program uses of the C++ standard library's containers.
pub mod PtrSet
