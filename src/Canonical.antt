-- ===== src/Canonical.antt =====
-- EGG-Chain/crates/egg-types/src/lib.rs, module `canonical`: the byte format of headers,
-- transactions, blocks and chain specifications.
pub mod Base
pub mod Header
pub mod Tx
pub mod Blocks
pub mod Spec
