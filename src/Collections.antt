-- ===== src/Collections.antt =====
-- Weak collections (module/common_collections).
pub mod WeakVector
mod Tests
