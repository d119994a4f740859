-- ===== src/Store.antt =====
-- EGG-Chain/crates/egg-db/src/store.rs: the chain store over a key-value store.
pub mod Records
pub mod RoundTrip
pub mod Keys
pub mod Ops
pub mod View
pub mod Frames
pub mod Kept
pub mod Refines
pub mod Children
pub mod Fresh
