-- ===== src/Genesis/Laws.antt =====
-- The genesis block of a valid specification.
use egg_project.Prelude.{ℕ, zero, suc, ◌≡◌, ◌≢◌, ◌↔◌, refl, subst, false, [], append-nil, ok, arith}
use egg_project.Prelude.Int.{ℤ, pos, negsuc}
use egg_project.Utf8.{is_blank}
use egg_project.Types.{ChainSpec, Block, IsSpec, IsHeader, zero_hash-IsHash}
use egg_project.Canonical.Blocks.{encode_block, decode_block, decode_block-encode_block}
use egg_project.Crypto.Hashing.{Blake3, header_id}
use egg_project.Crypto.Merkle.{merkle_root_txids}
use egg_project.Builder.{verify_block_merkle}
use egg_project.Builder.Checks.{verify_block_merkle_ok}
use egg_project.Genesis.{
  validate_chainspec, genesis_fields, genesis_block, genesis_id, not_positive,
}

pub record IsAcceptable (s : ChainSpec) : Type 0 where
  pub version : s.spec_version ≢ 0
  pub name : is_blank s.chain.chain_name ≡ false
  pub started : (n : ℕ) × (s.genesis.timestamp_utc ≡ pos (suc n))

positive_iff : (v : ℤ) → (not_positive v ≡ false) ↔ ((n : ℕ) × (v ≡ pos (suc n)))
unfolding not_positive
positive_iff (pos zero) = (λ h. cc, λ h. cc h.1)
positive_iff (pos (suc n)) = (λ h. (n, refl), λ h. refl)
positive_iff (negsuc n) = (λ h. cc, λ h. cc h.1)

accepted_tests :
    (s : ChainSpec)
    → validate_chainspec s ≡ ok tt
    → (s.spec_version ≢ 0)
      × (is_blank s.chain.chain_name ≡ false)
      × (not_positive s.genesis.timestamp_utc ≡ false)
unfolding validate_chainspec
accepted_tests s h = ground arith

tests_accepted :
    (s : ChainSpec)
    → s.spec_version ≢ 0
    → is_blank s.chain.chain_name ≡ false
    → not_positive s.genesis.timestamp_utc ≡ false
    → validate_chainspec s ≡ ok tt
unfolding validate_chainspec
tests_accepted s a b c = ground arith

-- A specification is accepted exactly when its version is not 0, its name has a character that is
-- not white space, and its time stamp is positive.
pub validate_chainspec_ok : (s : ChainSpec) → (validate_chainspec s ≡ ok tt) ↔ IsAcceptable s
validate_chainspec_ok s = (
  λ h.
      let (a, b, c) = accepted_tests s h in
      record { version = a; name = b; started = (positive_iff s.genesis.timestamp_utc).0 c },
  λ v. tests_accepted s v.version v.name ((positive_iff s.genesis.timestamp_utc).1 v.started),
)

pub genesis_fields-IsHeader : (s : ChainSpec) → IsSpec s → IsHeader (genesis_fields s)
genesis_fields-IsHeader s v = record {
  parent_ok = zero_hash-IsHash;
  height_ok = omega arith;
  timestamp_ok = v.timestamp_ok;
  nonce_ok = v.nonce_ok;
  root_ok = zero_hash-IsHash;
  bits_ok = v.bits_ok;
}

genesis_block_fields :
    (s : ChainSpec) (b : Block)
    → genesis_block s ≡ ok b
    → b ≡ record { header = genesis_fields s; txs = [] }
unfolding genesis_block
genesis_block_fields s b h = ground arith

-- The genesis block of an accepted specification survives encoding and decoding, passes
-- `verify_block_merkle`, and its header's id is the genesis id.
pub genesis_block_laws :
    (b3 : Blake3) (s : ChainSpec) (b : Block)
    → IsSpec s
    → genesis_block s ≡ ok b
    → (decode_block (encode_block b) ≡ ok b)
      × (verify_block_merkle b3 b ≡ ok tt)
      × (genesis_id b3 s ≡ ok (header_id b3 b.header))
genesis_block_laws b3 s b v h = rw (genesis_block_fields s b h) (
  subst (λ xs. decode_block xs ≡ ok block) (append-nil (encode_block block))
      (decode_block-encode_block block []
        (record { header_ok = genesis_fields-IsHeader s v; txs_ok = tt }) tt (omega arith)),
  (verify_block_merkle_ok b3 block).1 (tt, unfold merkle_root_txids in refl),
  id,
)
  where
    block : Block
    block = record { header = genesis_fields s; txs = [] }

    id : genesis_id b3 s ≡ ok (header_id b3 (genesis_fields s))
    id = unfold genesis_id genesis_block in ground arith
