-- ===== src/Cgnat.antt =====
-- core/node/libp2p/cgnat.go: the notice about carrier-grade NAT.
pub mod Detect
pub mod Notices
mod Examples
