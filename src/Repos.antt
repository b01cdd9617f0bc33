-- ===== src/Repos.antt =====
-- repo/onlyone.go: the repositories that are open, by key.
pub mod OnlyOne
pub mod Handles
pub mod Opened
pub mod Shared
mod Examples
