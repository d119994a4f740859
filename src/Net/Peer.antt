-- ===== src/Net/Peer.antt =====
-- EGG-Chain/crates/egg-net/src/peer.rs: the state machine of one peer.
pub mod Defs
pub mod Handlers
pub mod Bans
pub mod Steps
