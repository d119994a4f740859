-- ===== src/Chain.antt =====
-- EGG-Chain/crates/egg-chain/src/state.rs: the chain state, by its operations and what they keep.
pub mod Defs
pub mod Reorg
pub mod Connect
pub mod Ingest
pub mod Open
pub mod Queries
pub mod Validate
pub mod Keeps
pub mod Still
pub mod Ingested
pub mod TipOrder
pub mod ForkChoice
pub mod TipChange
pub mod Abstract
pub mod Rounds
pub mod Sound
pub mod Fresh
pub mod Restart
pub mod Verified
pub mod Lasting
pub mod Placed
pub mod Checked
