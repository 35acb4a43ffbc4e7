-- ===== src/Serializer.antt =====
-- The serializer (module/serializer): game specifications and the server's configuration from JSON.
pub mod Keys
pub mod Json
pub mod Tables
pub mod Validation
pub mod Expressions
pub mod Specification
pub mod ServerConfig
pub mod Rules
mod Sample
mod Tests
