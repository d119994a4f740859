-- ===== src/Builder/Template.antt =====
-- The block that is built from the pool.
use egg_project.Prelude.{
  ℕ, ◌≡◌, refl, ◌⊎◌, inl, inr, true, none, some, List, [], ◌∷◌, All, take, All-take, ok, arith,
  Option-cases,
}
use egg_project.Prelude.Int.{ℤ}
use egg_project.Prelude.Assoc.{Assoc, lookup, remove as map_remove, lookup-remove}
use egg_project.Types.{Hash256, Height, Transaction, Block}
use egg_project.Crypto.Hashing.{Blake3, validate_tx_id}
use egg_project.Crypto.Merkle.{merkle_root_txids}
use egg_project.Mempool.Defs.{Mempool, drain_fifo}
use egg_project.Mempool.Invariant.{IsValid}
use egg_project.Mempool.Fifo.{pending, pending_skip, pending_pop, queue, drain_fifo-queue}
use egg_project.Builder.{
  max_txs_per_block, ids, verify_block_merkle, build_block_template_from_mempool,
}
use egg_project.Builder.Checks.{HasValidId, check_ids_ok, verify_block_merkle_ok}

module _ (b3 : Blake3) where
  pending-HasValidId :
      (order : List Hash256) (m : Assoc Transaction)
      → ((k : Hash256) (tx : Transaction) → lookup k m ≡ some tx → validate_tx_id b3 tx ≡ true)
      → All (HasValidId b3) (pending order m)
  pending-HasValidId [] m h = unfold pending in tt
  pending-HasValidId (k ∷ order) m h =
      step (Option-cases (lookup k m)) (pending-HasValidId order m h) (
        pending-HasValidId order (map_remove k m)
          (λ j tx e. h j tx (ground (arith, lookup-remove k j m))))
    where
      step :
          (lookup k m ≡ none) ⊎ ((tx : Transaction) × (lookup k m ≡ some tx))
          → All (HasValidId b3) (pending order m)
          → All (HasValidId b3) (pending order (map_remove k m))
          → All (HasValidId b3) (pending (k ∷ order) m)
      step (inl e) same removed = rw (pending_skip k order m e) same
      step (inr (tx, e)) same removed = rw (pending_pop k order tx m e) (h k tx e, removed)

  drained-HasValidId :
      (max : ℕ) (mp : Mempool) → IsValid b3 mp → All (HasValidId b3) (drain_fifo max mp).0
  drained-HasValidId max mp v = rw (drain_fifo-queue max mp).0 (
      All-take (HasValidId b3) max (queue mp)
        (pending-HasValidId mp.order mp.by_id (λ k tx e. (v.keyed k tx e).1)))

  -- From a valid pool a block is always built: it has the first 10,000 transactions of the queue,
  -- with the parent, height, time stamp and difficulty asked for and nonce 0, and it passes `verify_block_merkle`.
  pub template-verifies :
      (mp : Mempool) (parent : Hash256) (height : Height) (timestamp_utc : ℤ) (bits : ℕ)
      → IsValid b3 mp
      → (b : Block) × ((build_block_template_from_mempool b3 mp parent height timestamp_utc bits).0
          ≡ ok b)
        × (verify_block_merkle b3 b ≡ ok tt)
        × (b.txs ≡ take max_txs_per_block (queue mp))
        × (b.header.parent ≡ parent)
        × (b.header.height ≡ height)
        × (b.header.timestamp_utc ≡ timestamp_utc)
        × (b.header.pow_difficulty_bits ≡ bits)
        × (b.header.nonce ≡ 0)
  template-verifies mp parent height timestamp_utc bits v =
      let valid = drained-HasValidId max_txs_per_block mp v in
      let checked = (check_ids_ok b3 0 txs).1 valid in
      (
        block,
        unfold build_block_template_from_mempool in rw checked,
        (verify_block_merkle_ok b3 block).1 (valid, refl),
        (drain_fifo-queue max_txs_per_block mp).0,
        refl,
        refl,
        refl,
        refl,
        refl,
      )
    where
      txs : List Transaction
      txs = (drain_fifo max_txs_per_block mp).0

      block : Block
      block = record {
        header = record {
          parent = parent;
          height = height;
          timestamp_utc = timestamp_utc;
          nonce = 0;
          merkle_root = merkle_root_txids b3 (ids txs);
          pow_difficulty_bits = bits;
        };
        txs = txs;
      }
