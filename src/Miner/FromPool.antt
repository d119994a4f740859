-- ===== src/Miner/FromPool.antt =====
-- Mining a block out of the pool.
use egg_project.Prelude.{ℕ, ◌^◌, ◌<◌, ◌≡◌, ap, ◌∙◌, true, take, ok, and_then, map_err, arith}
use egg_project.Prelude.Int.{ℤ}
use egg_project.Types.{Hash256, Height, Block}
use egg_project.Crypto.Hashing.{Blake3, pow_valid}
use egg_project.Mempool.Defs.{Mempool}
use egg_project.Mempool.Invariant.{IsValid}
use egg_project.Mempool.Fifo.{queue}
use egg_project.Builder.{max_txs_per_block, verify_block_merkle, build_block_template_from_mempool}
use egg_project.Builder.Template.{template-verifies}
use egg_project.Builder.Checks.{verify_block_merkle_ok}
use egg_project.Miner.{mine_block, mine_block_from_mempool}
use egg_project.Miner.Search.{mine_block_found, tried}

module _ (b3 : Blake3) (mp : Mempool) (parent : Hash256) (height : Height) (timestamp_utc : ℤ)
    (bits : ℕ) where
  -- From a valid pool, a block that is mined passes `verify_block_merkle`, has a valid proof of work
  -- and the first 10,000 transactions of the queue, and has the parent, height, time stamp and
  -- difficulty asked for.
  pub mined-verifies :
      (b : Block)
      → IsValid b3 mp
      → (mine_block_from_mempool b3 mp parent height timestamp_utc bits).0 ≡ ok b
      → (verify_block_merkle b3 b ≡ ok tt)
        × (pow_valid b3 b.header ≡ true)
        × (b.txs ≡ take max_txs_per_block (queue mp))
        × (b.header.parent ≡ parent)
        × (b.header.height ≡ height)
        × (b.header.timestamp_utc ≡ timestamp_utc)
        × (b.header.pow_difficulty_bits ≡ bits)
  mined-verifies b v h =
      let (t, built, verified, txs, p, q, w, d, n) =
        template-verifies b3 mp parent height timestamp_utc bits v in
      let nonce : t.header.nonce < 2 ^ 64 = omega (arith, n) in
      let (i, lt, which, valid, before) = mine_block_found b3 t b nonce (mined t built) in
      (
        same_verdict t b i which verified,
        valid,
        ap (λ c. c.txs) which ∙ txs,
        ap (λ c. c.header.parent) which ∙ p,
        ap (λ c. c.header.height) which ∙ q,
        ap (λ c. c.header.timestamp_utc) which ∙ w,
        ap (λ c. c.header.pow_difficulty_bits) which ∙ d,
      )
    where
      mined :
          (t : Block)
          → (build_block_template_from_mempool b3 mp parent height timestamp_utc bits).0 ≡ ok t
          → mine_block b3 t ≡ ok b
      mined t built = unfold mine_block_from_mempool in rw (built, map_err, and_then) at h

      same_verdict :
          (t c : Block) (i : ℕ)
          → c ≡ tried t i
          → verify_block_merkle b3 t ≡ ok tt
          → verify_block_merkle b3 c ≡ ok tt
      same_verdict t c i which verified =
          ap (verify_block_merkle b3) which
          ∙ (verify_block_merkle_ok b3 (tried t i)).1 ((verify_block_merkle_ok b3 t).0 verified)
