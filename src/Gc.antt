-- ===== src/Gc.antt =====
-- Garbage collection: gc/gc.go, blocks/blockstoreutil/remove.go and core/corerepo/gc.go.
pub mod World
pub mod Mark
pub mod Walk
pub mod Growth
pub mod Coverage
pub mod Roots
pub mod Reached
pub mod Colored
pub mod Sweep
pub mod Safety
pub mod Exact
pub mod Remove
pub mod Repo
pub mod Limits
mod Examples
