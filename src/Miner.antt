-- ===== src/Miner.antt =====
-- EGG-Chain/crates/egg-chain/src/miner.rs
pub mod Search
pub mod FromPool
use egg_project.Prelude.{ℕ, zero, suc, ◌+◌, Bool, true, false, Result, ok, err, map_err, and_then}
use egg_project.Prelude.Int.{ℤ}
use egg_project.Prelude.Words.{wrapping_add}
use egg_project.Types.{Hash256, Height, BlockHeader, Block}
use egg_project.Crypto.Hashing.{Blake3, pow_valid}
use egg_project.Mempool.Defs.{Mempool}
use egg_project.Builder.{BlockBuildError, build_block_template_from_mempool}

abbrev pub default_max_nonce_tries : ℕ
default_max_nonce_tries = 50000000

-- `pow_not_found max_tries`
pub data MiningError : Type 0 where
  block_build : BlockBuildError → MiningError
  pow_not_found : ℕ → MiningError

-- `block.header.nonce = block.header.nonce.wrapping_add(1)`
unfoldable pub next_nonce : Block → Block
next_nonce block = record block {
  header = record block.header { nonce = wrapping_add block.header.nonce 1 };
}

module _ (b3 : Blake3) where
  -- The `while` loop; the first argument is `DEFAULT_MAX_NONCE_TRIES - tries`.
  unfoldable pub mine_loop : ℕ → Block → Result MiningError Block
  mine_loop zero block = err (pow_not_found default_max_nonce_tries)
  mine_loop (suc left) block = elim (pow_valid b3 block.header) [
    | true ↦ ok block
    | false ↦ mine_loop left (next_nonce block)
  ]

  unfoldable pub mine_block : Block → Result MiningError Block
  mine_block block = mine_loop default_max_nonce_tries block

  -- The pool is the one that the template left, on success and on error alike.
  unfoldable pub mine_block_from_mempool :
      Mempool → Hash256 → Height → ℤ → ℕ → Result MiningError Block × Mempool
  mine_block_from_mempool mempool parent height timestamp_utc pow_difficulty_bits =
      let (built, mempool') =
        build_block_template_from_mempool b3 mempool parent height timestamp_utc
          pow_difficulty_bits in
      (and_then (map_err block_build built) mine_block, mempool')
