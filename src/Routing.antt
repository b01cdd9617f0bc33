-- ===== src/Routing.antt =====
-- config/routing.go and routing/delegated.go: the custom routers of a node.
pub mod Config
pub mod Methods
pub mod Parse
pub mod Entries
pub mod Trees
pub mod Termination
pub mod Built
pub mod Soundness
pub mod Unique
pub mod Pending
pub mod Complete
pub mod Providing
mod Examples
