-- ===== src/Forwarding.antt =====
-- p2p: the listeners and the streams of port forwarding.
pub mod Streams
pub mod Peers
pub mod Listeners
pub mod Running
mod Examples
