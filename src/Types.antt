-- ===== src/Types.antt =====
-- EGG-Chain/crates/egg-types/src/lib.rs: the data that the whole chain shares.
-- A `u8`, `u32`, `u64` or `usize` is a number, a `String` its UTF-8 bytes; the predicates at the
-- end say which values the Rust types hold.
use egg_project.Prelude.{
  ℕ, ◌^◌, ◌<◌, ◌≡◌, refl, true, List, length, replicate, All, All-replicate, arith,
}
use egg_project.Prelude.Int.{ℤ, IsI64}
use egg_project.Bytes.{Bytes, IsByte}
use egg_project.Utf8.{is_utf8}

abbrev pub hash256_len : ℕ
hash256_len = 32

-- `Hash256(pub [u8; 32])`
abbrev pub Hash256 : Type 0
Hash256 = Bytes

abbrev pub zero_hash : Hash256
zero_hash = replicate hash256_len 0

-- `Height(pub u64)`
abbrev pub Height : Type 0
Height = ℕ

pub record BlockHeader : Type 0 where
  pub parent : Hash256
  pub height : Height
  pub timestamp_utc : ℤ
  pub nonce : ℕ
  pub merkle_root : Hash256
  pub pow_difficulty_bits : ℕ

pub record Transaction : Type 0 where
  pub id : Hash256
  pub payload : Bytes

pub record Block : Type 0 where
  pub header : BlockHeader
  pub txs : List Transaction

pub record ChainParams : Type 0 where
  pub chain_name : Bytes
  pub chain_id : ℕ

pub record GenesisSpec : Type 0 where
  pub timestamp_utc : ℤ
  pub pow_difficulty_bits : ℕ
  pub nonce : ℕ

pub record ChainSpec : Type 0 where
  pub spec_version : ℕ
  pub chain : ChainParams
  pub genesis : GenesisSpec

abbrev pub IsU32 : ℕ → Type 0
IsU32 v = v < 2 ^ 32

abbrev pub IsU64 : ℕ → Type 0
IsU64 v = v < 2 ^ 64

pub record IsHash (h : Hash256) : Type 0 where
  pub len : length h ≡ hash256_len
  pub bytes : All IsByte h

pub record IsHeader (h : BlockHeader) : Type 0 where
  pub parent_ok : IsHash h.parent
  pub height_ok : IsU64 h.height
  pub timestamp_ok : IsI64 h.timestamp_utc
  pub nonce_ok : IsU64 h.nonce
  pub root_ok : IsHash h.merkle_root
  pub bits_ok : IsU32 h.pow_difficulty_bits

pub record IsTransaction (t : Transaction) : Type 0 where
  pub id_ok : IsHash t.id
  pub payload_ok : All IsByte t.payload

pub record IsBlock (b : Block) : Type 0 where
  pub header_ok : IsHeader b.header
  pub txs_ok : All IsTransaction b.txs

pub record IsSpec (s : ChainSpec) : Type 0 where
  pub version_ok : IsU32 s.spec_version
  pub id_ok : IsU32 s.chain.chain_id
  pub name_ok : All IsByte s.chain.chain_name
  pub name_utf8 : is_utf8 s.chain.chain_name ≡ true
  pub timestamp_ok : IsI64 s.genesis.timestamp_utc
  pub bits_ok : IsU32 s.genesis.pow_difficulty_bits
  pub nonce_ok : IsU64 s.genesis.nonce

pub zero_hash-IsHash : IsHash zero_hash
zero_hash-IsHash = record { len = refl; bytes = All-replicate IsByte 32 0 (omega arith) }
