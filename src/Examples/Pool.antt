-- ===== src/Examples/Pool.antt =====
-- Uses of the theorems on the pool, the block builder and the miner.
use egg_project.Prelude.{
  ℕ, ◌≡◌, ◌⊎◌, ◌↔◌, refl, true, [], ◌∷◌, ◌<◌, ok, err, All, take, drop, arith,
}
use egg_project.Prelude.Int.{pos}
use egg_project.Prelude.Assoc.{lookup}
use egg_project.Utf8.{is_blank}
use egg_project.Types.{Block}
use egg_project.Canonical.Blocks.{encode_block, decode_block}
use egg_project.Crypto.Hashing.{pow_valid, header_id}
use egg_project.Crypto.Merkle.{merkle_root_txids}
use egg_project.Mempool.Defs.{Mempool, empty, add_tx, remove, drain_fifo}
use egg_project.Mempool.Invariant.{
  IsValid, Admitted, operations-IsValid, elem, add_tx-IsValid, empty-IsValid,
}
use egg_project.Mempool.Fifo.{queue, drain_fifo-queue}
use egg_project.Builder.{
  max_txs_per_block, ids, verify_block_merkle, build_block_template_from_mempool,
}
use egg_project.Builder.Checks.{HasValidId, verify_block_merkle_ok}
use egg_project.Builder.Template.{template-verifies}
use egg_project.Genesis.{genesis_fields, validate_chainspec, genesis_block, genesis_id}
use egg_project.Genesis.Laws.{genesis_block_laws}
use egg_project.Miner.{mine_block, mine_block_from_mempool, default_max_nonce_tries, pow_not_found}
use egg_project.Miner.Search.{tried, FailsBefore, mine_block_result}
use egg_project.Miner.FromPool.{mined-verifies}
use egg_project.Crypto.Hashing.{header_id, leading_zero_bits, tx_id_from_payload, validate_tx_id}
use egg_project.Bytes.{to_be_bytes}
use egg_project.Canonical.Tx.{encode_tx_body}
use egg_project.Canonical.Base.{saturate_u32}
use egg_project.Canonical.Header.{encode_block_header}
use egg_project.Prelude.Int.{i64_bits}
use egg_project.Prelude.Assoc.{contains_key, insert}
use egg_project.Prelude.Words.{saturating_add}
use egg_project.Miner.{mine_loop}
use egg_project.Prelude.{bytes_eq, ◌++◌}
use egg_project.Mempool.Fifo.{queue-add_tx}
use egg_project.Examples.Data.{
  sum_hash, hash_of, tx1, tx2, tx_of-valid, block1, spec1, spec1-IsSpec,
}

abbrev pool1 : Mempool
pool1 = (add_tx sum_hash tx1 empty).1

pool1-IsValid : IsValid sum_hash pool1
pool1-IsValid = add_tx-IsValid sum_hash tx1 empty (empty-IsValid sum_hash)

tx1-Admitted : Admitted sum_hash tx1 empty
unfolding lookup
tx1-Admitted = record {
  id_valid = tx_of-valid (1 ∷ 2 ∷ 3 ∷ []);
  fresh = refl;
  room = omega arith;
  fits = omega arith;
}

operations-IsValid_example :
    IsValid sum_hash (add_tx sum_hash tx2 pool1).1
    × IsValid sum_hash (remove tx1.id pool1).1
    × IsValid sum_hash (drain_fifo 1 pool1).1
operations-IsValid_example = operations-IsValid sum_hash tx2 tx1.id 1 pool1 pool1-IsValid

drain_fifo-queue_example :
    ((drain_fifo 1 pool1).0 ≡ take 1 (queue pool1))
    × (queue (drain_fifo 1 pool1).1 ≡ drop 1 (queue pool1))
drain_fifo-queue_example = drain_fifo-queue 1 pool1

verify_block_merkle_ok_example : (verify_block_merkle sum_hash block1 ≡ ok tt) ↔ (
    All (HasValidId sum_hash) block1.txs
    × (block1.header.merkle_root ≡ merkle_root_txids sum_hash (ids block1.txs)))
verify_block_merkle_ok_example = verify_block_merkle_ok sum_hash block1

template-verifies_example :
    (b : Block) × ((build_block_template_from_mempool sum_hash pool1 (hash_of 7) 3 (pos 5) 0).0
      ≡ ok b)
    × (verify_block_merkle sum_hash b ≡ ok tt)
    × (b.txs ≡ take max_txs_per_block (queue pool1))
    × (b.header.parent ≡ hash_of 7)
    × (b.header.height ≡ 3)
    × (b.header.timestamp_utc ≡ pos 5)
    × (b.header.pow_difficulty_bits ≡ 0)
    × (b.header.nonce ≡ 0)
template-verifies_example = template-verifies sum_hash pool1 (hash_of 7) 3 (pos 5) 0 pool1-IsValid

mine_block_result_example :
    ((i : ℕ) × (i < default_max_nonce_tries)
      × (mine_block sum_hash block1 ≡ ok (tried block1 i))
      × (pow_valid sum_hash (tried block1 i).header ≡ true)
      × FailsBefore sum_hash block1 i)
    ⊎ ((mine_block sum_hash block1 ≡ err (pow_not_found default_max_nonce_tries))
        × FailsBefore sum_hash block1 default_max_nonce_tries)
mine_block_result_example = mine_block_result sum_hash block1 (omega arith)

abbrev mined1 : Block
mined1 = record {
  header = record {
    parent = hash_of 7;
    height = 3;
    timestamp_utc = pos 5;
    nonce = 0;
    merkle_root = merkle_root_txids sum_hash (tx1.id ∷ []);
    pow_difficulty_bits = 0;
  };
  txs = tx1 ∷ [];
}

mined1_found : (mine_block_from_mempool sum_hash pool1 (hash_of 7) 3 (pos 5) 0).0 ≡ ok mined1
unfolding mine_block_from_mempool merkle_root_txids build_block_template_from_mempool drain_fifo
    add_tx bytes_eq tx_id_from_payload to_be_bytes encode_tx_body saturate_u32 validate_tx_id
    contains_key lookup saturating_add insert mine_block mine_loop pow_valid leading_zero_bits
    encode_block_header i64_bits header_id
mined1_found = refl

mined-verifies_example :
    (verify_block_merkle sum_hash mined1 ≡ ok tt)
    × (pow_valid sum_hash mined1.header ≡ true)
    × (mined1.txs ≡ take max_txs_per_block (queue pool1))
    × (mined1.header.parent ≡ hash_of 7)
    × (mined1.header.height ≡ 3)
    × (mined1.header.timestamp_utc ≡ pos 5)
    × (mined1.header.pow_difficulty_bits ≡ 0)
mined-verifies_example =
    mined-verifies sum_hash pool1 (hash_of 7) 3 (pos 5) 0 mined1 pool1-IsValid mined1_found

queue-add_tx_example : queue pool1 ≡ queue empty ++ (tx1 ∷ [])
queue-add_tx_example =
    queue-add_tx sum_hash tx1 empty (empty-IsValid sum_hash) tx1-Admitted (unfold elem in refl)

abbrev genesis1 : Block
genesis1 = record { header = genesis_fields spec1; txs = [] }

genesis1_built : genesis_block spec1 ≡ ok genesis1
unfolding genesis_block validate_chainspec is_blank
genesis1_built = refl

pub spec1_accepted : validate_chainspec spec1 ≡ ok tt
unfolding validate_chainspec is_blank
spec1_accepted = refl

genesis_block_laws_example :
    (decode_block (encode_block genesis1) ≡ ok genesis1)
    × (verify_block_merkle sum_hash genesis1 ≡ ok tt)
    × (genesis_id sum_hash spec1 ≡ ok (header_id sum_hash genesis1.header))
genesis_block_laws_example = genesis_block_laws sum_hash spec1 genesis1 spec1-IsSpec genesis1_built
