-- ===== src/Crypto.antt =====
-- EGG-Chain/crates/egg-crypto/src/{lib,merkle}.rs, and `header_id` and `pow_valid` of
-- EGG-Chain/crates/egg-chain/src/lib.rs.
pub mod Hashing
pub mod ZeroBits
pub mod Merkle
