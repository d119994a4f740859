-- ===== src/Genesis.antt =====
-- EGG-Chain/crates/egg-chain/src/chainspec.rs: the checks of a chain specification and the genesis
-- block.
pub mod Laws
pub mod File
use Prim.Native.String.{String}
use egg_project.Prelude.{
  ℕ, zero, suc, Bool, true, false, List, [], Result, ok, err, and_then, ◌==◌, if◌then◌else◌,
}
use egg_project.Prelude.Int.{ℤ, pos, negsuc}
use egg_project.Utf8.{is_blank}
use egg_project.Bytes.{Bytes}
use egg_project.Types.{Hash256, zero_hash, BlockHeader, Block, ChainSpec}
use egg_project.Crypto.Hashing.{Blake3, header_id, pow_valid}

-- An error of the file system or of the crate `toml` is its text.
pub data ChainSpecError : Type 0 where
  io : Bytes → ChainSpecError
  toml_de : Bytes → ChainSpecError
  toml_ser : Bytes → ChainSpecError
  invalid : String → ChainSpecError

-- `v <= 0`
unfoldable pub not_positive : ℤ → Bool
not_positive (pos zero) = true
not_positive (pos (suc n)) = false
not_positive (negsuc n) = true

unfoldable pub validate_chainspec : ChainSpec → Result ChainSpecError (Unit {0})
unfolding not_positive
validate_chainspec spec =
    if spec.spec_version == 0
    then err (invalid "spec_version must be > 0")
    else if is_blank spec.chain.chain_name
    then err (invalid "chain.chain_name must be non-empty")
    else if not_positive spec.genesis.timestamp_utc
    then err (invalid "genesis.timestamp_utc must be > 0 (UTC seconds)")
    else ok tt

abbrev pub genesis_fields : ChainSpec → BlockHeader
genesis_fields spec = record {
  parent = zero_hash;
  height = 0;
  timestamp_utc = spec.genesis.timestamp_utc;
  nonce = spec.genesis.nonce;
  merkle_root = zero_hash;
  pow_difficulty_bits = spec.genesis.pow_difficulty_bits;
}

unfoldable pub genesis_header : ChainSpec → Result ChainSpecError BlockHeader
genesis_header spec = and_then (validate_chainspec spec) (λ _. ok (genesis_fields spec))

unfoldable pub genesis_block : ChainSpec → Result ChainSpecError Block
unfolding genesis_header
genesis_block spec =
    and_then (genesis_header spec) (λ header. ok (record { header = header; txs = [] }))

module _ (b3 : Blake3) where
  unfoldable pub genesis_id : ChainSpec → Result ChainSpecError Hash256
  unfolding genesis_header
  genesis_id spec = and_then (genesis_header spec) (λ header. ok (header_id b3 header))

  unfoldable pub genesis_pow_valid : ChainSpec → Result ChainSpecError Bool
  unfolding genesis_header
  genesis_pow_valid spec = and_then (genesis_header spec) (λ header. ok (pow_valid b3 header))
