-- ===== src/P2p.antt =====
-- The package p2p/: what a node lets in from its peers.
pub mod RateLimit
pub mod Peers
pub mod Service
pub mod Tests
