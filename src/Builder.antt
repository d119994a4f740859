-- ===== src/Builder.antt =====
-- EGG-Chain/crates/egg-chain/src/block_builder.rs
pub mod Checks
pub mod Template
use egg_project.Prelude.{
  ℕ, suc, ◌+◌, Bool, true, false, not, List, [], ◌∷◌, map, Result, ok, err, and_then, bytes_eq,
  if◌then◌else◌,
}
use egg_project.Prelude.Int.{ℤ}
use egg_project.Types.{Hash256, Height, Transaction, BlockHeader, Block}
use egg_project.Crypto.Hashing.{Blake3, tx_id_from_payload, validate_tx_id}
use egg_project.Crypto.Merkle.{merkle_root_txids}
use egg_project.Mempool.Defs.{Mempool, drain_fifo}

abbrev pub max_txs_per_block : ℕ
max_txs_per_block = 10000

-- `invalid_tx_id index expected got`, `merkle_mismatch expected got`
pub data BlockBuildError : Type 0 where
  invalid_tx_id : ℕ → Hash256 → Hash256 → BlockBuildError
  merkle_mismatch : Hash256 → Hash256 → BlockBuildError

abbrev pub ids : List Transaction → List Hash256
ids = map (λ t. t.id)

module _ (b3 : Blake3) where
  -- `for (i, tx) in txs.iter().enumerate()`
  unfoldable pub check_ids : ℕ → List Transaction → Result BlockBuildError (Unit {0})
  check_ids i [] = ok tt
  check_ids i (tx ∷ txs) =
      let rest = check_ids (suc i) txs in
      if not (validate_tx_id b3 tx)
      then err (invalid_tx_id i (tx_id_from_payload b3 tx.payload) tx.id)
      else rest

  unfoldable pub compute_merkle_root_from_txs : List Transaction → Result BlockBuildError Hash256
  unfolding check_ids
  compute_merkle_root_from_txs txs =
      and_then (check_ids 0 txs) (λ _. ok (merkle_root_txids b3 (ids txs)))

  unfoldable pub verify_block_merkle : Block → Result BlockBuildError (Unit {0})
  unfolding compute_merkle_root_from_txs
  verify_block_merkle block = and_then (compute_merkle_root_from_txs block.txs) λ expected.
      if not (bytes_eq block.header.merkle_root expected)
      then err (merkle_mismatch expected block.header.merkle_root)
      else ok tt

  -- The result, and the pool without the transactions that were taken.
  unfoldable pub build_block_template_from_mempool :
      Mempool → Hash256 → Height → ℤ → ℕ → Result BlockBuildError Block × Mempool
  unfolding compute_merkle_root_from_txs
  build_block_template_from_mempool mempool parent height timestamp_utc pow_difficulty_bits =
      let (txs, mempool') = drain_fifo max_txs_per_block mempool in
      (
        and_then (compute_merkle_root_from_txs txs) λ merkle_root. ok (record {
          header = record {
            parent = parent;
            height = height;
            timestamp_utc = timestamp_utc;
            nonce = 0;
            merkle_root = merkle_root;
            pow_difficulty_bits = pow_difficulty_bits;
          };
          txs = txs;
        }),
        mempool',
      )
