-- ===== src/Plugins.antt =====
-- plugin/loader/loader.go: the life of the plugins of a node.
pub mod Loader
pub mod Life
pub mod Calls
pub mod Names
pub mod Starts
mod Examples
