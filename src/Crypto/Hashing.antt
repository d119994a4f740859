-- ===== src/Crypto/Hashing.antt =====
-- EGG-Chain/crates/egg-crypto/src/lib.rs: domain-separated hashes. The hash function is the crate
-- `blake3`, a parameter; `update` twice and `finalize` hashes the bytes one after the other.
use egg_project.Prelude.{
  ℕ, ◌+◌, Bool, [], ◌∷◌, ◌++◌, Result, leb, bytes_eq, ltb, ◌==◌, and_then, ok, if◌then◌else◌,
}
use egg_project.Bytes.{Bytes}
use egg_project.Types.{Hash256, BlockHeader, Transaction, Block, ChainSpec, IsHash}
use egg_project.Canonical.Base.{CanonicalError}
use egg_project.Canonical.Header.{encode_block_header}
use egg_project.Canonical.Tx.{encode_tx_body}
use egg_project.Canonical.Blocks.{encode_block}
use egg_project.Canonical.Spec.{encode_chainspec}

-- A digest is an array of 32 bytes. Nothing else is assumed of the function.
pub record Blake3 : Type 0 where
  pub digest : Bytes → Hash256
  pub digest_ok : (xs : Bytes) → IsHash (digest xs)

abbrev pub domain_block_header : Bytes
domain_block_header =
    b'E' ∷ b'G' ∷ b'G' ∷ b':' ∷ b'H' ∷ b'D' ∷ b'R' ∷ b':' ∷ b'V' ∷ b'0' ∷ 0 ∷ 0 ∷ 0 ∷ 0 ∷ 0 ∷ 0 ∷ []

abbrev pub domain_tx : Bytes
domain_tx =
    b'E' ∷ b'G' ∷ b'G' ∷ b':' ∷ b'T' ∷ b'X' ∷ b' ' ∷ b':' ∷ b'V' ∷ b'0' ∷ 0 ∷ 0 ∷ 0 ∷ 0 ∷ 0 ∷ 0 ∷ []

abbrev pub domain_block : Bytes
domain_block =
    b'E' ∷ b'G' ∷ b'G' ∷ b':' ∷ b'B' ∷ b'L' ∷ b'K' ∷ b':' ∷ b'V' ∷ b'0' ∷ 0 ∷ 0 ∷ 0 ∷ 0 ∷ 0 ∷ 0 ∷ []

abbrev pub domain_chainspec : Bytes
domain_chainspec =
    b'E' ∷ b'G' ∷ b'G' ∷ b':' ∷ b'C' ∷ b'S' ∷ b'P' ∷ b':' ∷ b'V' ∷ b'0' ∷ 0 ∷ 0 ∷ 0 ∷ 0 ∷ 0 ∷ 0 ∷ []

abbrev pub domain_merkle : Bytes
domain_merkle =
    b'E' ∷ b'G' ∷ b'G' ∷ b':' ∷ b'M' ∷ b'R' ∷ b'K' ∷ b':' ∷ b'V' ∷ b'0' ∷ 0 ∷ 0 ∷ 0 ∷ 0 ∷ 0 ∷ 0 ∷ []

-- `u8::leading_zeros`
unfoldable pub leading_zeros : ℕ → ℕ
leading_zeros b =
    if b == 0
    then 8
    else if ltb b 2
    then 7
    else if ltb b 4
    then 6
    else if ltb b 8
    then 5
    else if ltb b 16
    then 4
    else if ltb b 32
    then 3
    else if ltb b 64
    then 2
    else if ltb b 128
    then 1
    else 0

-- The loop of `leading_zero_bits`: `continue` on a zero byte, `break` behind any other.
unfoldable pub leading_zero_bits_loop : ℕ → Bytes → ℕ
leading_zero_bits_loop count [] = count
leading_zero_bits_loop count (b ∷ bs) =
    let rest = leading_zero_bits_loop (count + 8) bs in
    if b == 0 then rest else count + leading_zeros b

unfoldable pub leading_zero_bits : Hash256 → ℕ
unfolding leading_zero_bits_loop leading_zeros
leading_zero_bits = leading_zero_bits_loop 0

module _ (b3 : Blake3) where
  unfoldable pub hash_domain : Bytes → Bytes → Hash256
  hash_domain domain bytes = b3.digest (domain ++ bytes)

  unfoldable pub hash_header : BlockHeader → Hash256
  unfolding hash_domain
  hash_header header = hash_domain domain_block_header (encode_block_header header)

  unfoldable pub tx_id_from_payload : Bytes → Hash256
  unfolding hash_domain
  tx_id_from_payload payload = hash_domain domain_tx (encode_tx_body payload)

  unfoldable pub hash_tx : Transaction → Hash256
  hash_tx tx = tx_id_from_payload tx.payload

  unfoldable pub validate_tx_id : Transaction → Bool
  validate_tx_id tx = bytes_eq tx.id (tx_id_from_payload tx.payload)

  unfoldable pub hash_block : Block → Hash256
  hash_block block = hash_domain domain_block (encode_block block)

  -- The error is the panic of `encode_chainspec`.
  unfoldable pub hash_chainspec : ChainSpec → Result CanonicalError Hash256
  hash_chainspec spec =
      and_then (encode_chainspec spec) (λ enc. ok (hash_domain domain_chainspec enc))

  -- egg-chain/src/lib.rs
  unfoldable pub header_id : BlockHeader → Hash256
  unfolding hash_header
  header_id header = hash_header header

  unfoldable pub pow_valid : BlockHeader → Bool
  pow_valid header = leb header.pow_difficulty_bits (leading_zero_bits (header_id header))

  pub header_id-IsHash : (h : BlockHeader) → IsHash (header_id h)
  unfolding header_id
  header_id-IsHash h = b3.digest_ok (domain_block_header ++ encode_block_header h)

  pub tx_id_from_payload-IsHash : (payload : Bytes) → IsHash (tx_id_from_payload payload)
  unfolding tx_id_from_payload
  tx_id_from_payload-IsHash payload = b3.digest_ok (domain_tx ++ encode_tx_body payload)
