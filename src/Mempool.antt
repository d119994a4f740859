-- ===== src/Mempool.antt =====
-- EGG-Chain/crates/egg-chain/src/mempool.rs
pub mod Defs
pub mod Invariant
pub mod Fifo
