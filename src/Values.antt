-- ===== src/Values.antt =====
-- config/types.go: the values of the config with defaults, and their JSON.
pub mod Json
pub mod Flags
pub mod Optional
pub mod RoundTrips
pub mod Panics
mod Examples
