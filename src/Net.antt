-- ===== src/Net.antt =====
-- EGG-Chain/crates/egg-net: the messages that nodes exchange, and their frames.
pub mod Wire
pub mod Message
pub mod RoundTrip
pub mod Frame
pub mod Framing
pub mod Peer
