-- ===== src/Requests.antt =====
-- commands/reqlog.go: the log of the requests to a node.
pub mod Log
pub mod Cleanup
pub mod Entries
pub mod Kept
mod Examples
