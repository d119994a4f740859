-- ===== src/Examples/Data.antt =====
-- Concrete data: a hash function, headers, transactions, blocks and a specification.
use egg_project.Prelude.{
  ℕ, ◌+◌, ◌*◌, ◌%◌, ◌^◌, ◌<◌, ◌≡◌, refl, true, [], ◌∷◌, foldl, All, arith, bytes_eq_refl,
}
use egg_project.Prelude.Int.{pos}
use egg_project.Bytes.{Bytes, IsByte, to_be_bytes, length-to_be_bytes, to_be_bytes-IsByte}
use egg_project.Utf8.{is_utf8}
use egg_project.Types.{
  Hash256, BlockHeader, Transaction, Block, ChainSpec, IsHash, IsHeader, IsTransaction, IsBlock,
  IsSpec, zero_hash, zero_hash-IsHash,
}
use egg_project.Crypto.Hashing.{
  Blake3, tx_id_from_payload, tx_id_from_payload-IsHash, validate_tx_id,
}

-- The bytes as the digits of a number, cut off.
abbrev pub checksum : Bytes → ℕ
checksum xs = foldl (λ acc b. (acc * 257 + b + 1) % 2 ^ 250) 0 xs

abbrev pub sum_hash : Blake3
sum_hash = record {
  digest = λ xs. to_be_bytes 32 (checksum xs);
  digest_ok = λ xs. record {
    len = length-to_be_bytes 32 (checksum xs);
    bytes = to_be_bytes-IsByte 32 (checksum xs);
  };
}

abbrev pub hash_of : ℕ → Hash256
hash_of n = to_be_bytes 32 n

pub hash_of-IsHash : (n : ℕ) → IsHash (hash_of n)
hash_of-IsHash n = record { len = length-to_be_bytes 32 n; bytes = to_be_bytes-IsByte 32 n }

abbrev pub header_at : ℕ → Hash256 → BlockHeader
header_at n root = record {
  parent = hash_of 7;
  height = n;
  timestamp_utc = pos 1700000000;
  nonce = 11;
  merkle_root = root;
  pow_difficulty_bits = 0;
}

pub header_at-IsHeader :
    (n : ℕ) (root : Hash256) → n < 2 ^ 64 → IsHash root → IsHeader (header_at n root)
header_at-IsHeader n root b h = record {
  parent_ok = hash_of-IsHash 7;
  height_ok = b;
  timestamp_ok = omega arith;
  nonce_ok = omega arith;
  root_ok = h;
  bits_ok = omega arith;
}

abbrev pub tx_of : Bytes → Transaction
tx_of payload = record { id = tx_id_from_payload sum_hash payload; payload = payload }

pub tx_of-IsTransaction : (payload : Bytes) → All IsByte payload → IsTransaction (tx_of payload)
tx_of-IsTransaction payload h = record {
  id_ok = tx_id_from_payload-IsHash sum_hash payload;
  payload_ok = h;
}

pub tx_of-valid : (payload : Bytes) → validate_tx_id sum_hash (tx_of payload) ≡ true
unfolding validate_tx_id
tx_of-valid payload = bytes_eq_refl (tx_id_from_payload sum_hash payload)

abbrev pub tx1 : Transaction
tx1 = tx_of (1 ∷ 2 ∷ 3 ∷ [])

abbrev pub tx2 : Transaction
tx2 = tx_of (9 ∷ [])

abbrev pub block1 : Block
block1 = record { header = header_at 1 zero_hash; txs = tx1 ∷ tx2 ∷ [] }

pub block1-IsBlock : IsBlock block1
block1-IsBlock = record {
  header_ok = header_at-IsHeader 1 zero_hash (omega arith) zero_hash-IsHash;
  txs_ok = (
    tx_of-IsTransaction (1 ∷ 2 ∷ 3 ∷ []) (omega arith, (omega arith, (omega arith, tt))),
    (tx_of-IsTransaction (9 ∷ []) (omega arith, tt), tt),
  );
}

abbrev pub spec1 : ChainSpec
spec1 = record {
  spec_version = 1;
  chain = record {
    chain_name = b'E' ∷ b'G' ∷ b'G' ∷ b'-' ∷ b'M' ∷ b'A' ∷ b'I' ∷ b'N' ∷ [];
    chain_id = 1;
  };
  genesis = record { timestamp_utc = pos 1700000000; pow_difficulty_bits = 0; nonce = 0 };
}

pub spec1-IsSpec : IsSpec spec1
unfolding is_utf8
spec1-IsSpec = record {
  version_ok = omega arith;
  id_ok = omega arith;
  name_ok = (
    omega arith,
    (
      omega arith,
      (omega arith, (omega arith, (omega arith, (omega arith, (omega arith, (omega arith, tt)))))),
    ),
  );
  name_utf8 = refl;
  timestamp_ok = omega arith;
  bits_ok = omega arith;
  nonce_ok = omega arith;
}
