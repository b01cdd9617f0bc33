-- ===== src/Provide.antt =====
-- config/provide.go: the strategy by which a node announces its content.
pub mod Strategy
pub mod Meaning
pub mod Consistent
pub mod Config
pub mod Bounds
mod Examples
