-- ===== src/Examples/Codecs.antt =====
-- Uses of the round trips of the canonical codec, of the Merkle tree and of proof of work.
use egg_project.Prelude.{◌≡◌, ◌↔◌, refl, true, [], ◌∷◌, ◌++◌, ◌<◌, ◌^◌, ◌-◌, ok, All, arith}
use egg_project.Bytes.{Bytes, from_be_bytes}
use egg_project.Types.{zero_hash, zero_hash-IsHash}
use egg_project.Canonical.Header.{
  encode_block_header, decode_block_header, decode_block_header-encode_block_header,
}
use egg_project.Canonical.Blocks.{encode_block, decode_block, decode_block-encode_block, FitsU32}
use egg_project.Canonical.Spec.{
  encode_chainspec, decode_chainspec, decode_chainspec-encode_chainspec,
}
use egg_project.Crypto.Hashing.{header_id, pow_valid}
use egg_project.Crypto.ZeroBits.{pow_valid-target}
use egg_project.Crypto.Merkle.{merkle_root_txids}
use egg_project.Crypto.Merkle.Doubled.{merkle_root_txids_doubled}
use egg_project.Examples.Data.{
  sum_hash, hash_of, header_at, header_at-IsHeader, block1, block1-IsBlock, spec1, spec1-IsSpec,
}

decode_block_header-encode_block_header_example :
    decode_block_header (encode_block_header (header_at 5 zero_hash) ++ (255 ∷ []))
    ≡ ok (header_at 5 zero_hash)
decode_block_header-encode_block_header_example =
    decode_block_header-encode_block_header (header_at 5 zero_hash) (255 ∷ [])
      (header_at-IsHeader 5 zero_hash (omega arith) zero_hash-IsHash)

pub block1_fits : All FitsU32 block1.txs
block1_fits = (omega arith, (omega arith, tt))

decode_block-encode_block_example : decode_block (encode_block block1 ++ (1 ∷ [])) ≡ ok block1
decode_block-encode_block_example =
    decode_block-encode_block block1 (1 ∷ []) block1-IsBlock block1_fits (omega arith)

decode_chainspec-encode_chainspec_example :
    (bytes : Bytes) × (encode_chainspec spec1 ≡ ok bytes)
    × (decode_chainspec (bytes ++ []) ≡ ok spec1)
decode_chainspec-encode_chainspec_example =
    decode_chainspec-encode_chainspec spec1 [] spec1-IsSpec (omega arith)

pow_valid-target_example :
    (pow_valid sum_hash (header_at 5 zero_hash) ≡ true)
    ↔ (from_be_bytes (header_id sum_hash (header_at 5 zero_hash)) < 2 ^ (256 - 0))
pow_valid-target_example = pow_valid-target sum_hash (header_at 5 zero_hash) (omega arith)

merkle_root_txids_doubled_example :
    merkle_root_txids sum_hash (hash_of 1 ∷ hash_of 2 ∷ hash_of 3 ∷ [])
    ≡ merkle_root_txids sum_hash (hash_of 1 ∷ hash_of 2 ∷ hash_of 3 ∷ hash_of 3 ∷ [])
merkle_root_txids_doubled_example =
    merkle_root_txids_doubled sum_hash (hash_of 1) (hash_of 2) [] (hash_of 3) refl
