-- ===== src/Store/Records.antt =====
-- EGG-Chain/crates/egg-db/src/store.rs: the records of the chain store and their byte formats.
use Prim.Native.String.{String}
use egg_project.Prelude.{
  ℕ, zero, suc, ◌+◌, ◌-◌, ◌*◌, not, List, [], ◌∷◌, ◌++◌, length, take, drop, Result, ok, err, ltb,
  ◌==◌, bytes_eq, if◌then◌else◌,
}
use egg_project.Bytes.{Bytes, to_be_bytes, from_be_bytes}
use egg_project.Types.{Hash256, Height}
use egg_project.Canonical.Base.{CanonicalError, saturate_u32}
use egg_project.Kv.{DbError}

-- `decode` has the text of the error; `decode_as` has the text that stands before the error of
-- module `canonical`.
pub data StoreError : Type 0 where
  db : DbError → StoreError
  decode : String → StoreError
  decode_as : String → CanonicalError → StoreError

pub record ChainTip : Type 0 where
  pub height : Height
  pub hash : Hash256

pub record ChainMeta : Type 0 where
  pub chain_id : ℕ
  pub genesis_id : Hash256
  pub chainspec_hash : Hash256

pub record BlockMeta : Type 0 where
  pub parent : Hash256
  pub height : Height

abbrev pub magic_tip : Bytes
magic_tip = b'E' ∷ b'G' ∷ b'G' ∷ b'_' ∷ b'T' ∷ b'I' ∷ b'P' ∷ b'0' ∷ []

abbrev pub magic_met : Bytes
magic_met = b'E' ∷ b'G' ∷ b'G' ∷ b'_' ∷ b'M' ∷ b'E' ∷ b'T' ∷ b'0' ∷ []

abbrev pub magic_bm : Bytes
magic_bm = b'E' ∷ b'G' ∷ b'G' ∷ b'_' ∷ b'B' ∷ b'M' ∷ b'0' ∷ b'0' ∷ []

abbrev pub magic_ch : Bytes
magic_ch = b'E' ∷ b'G' ∷ b'G' ∷ b'_' ∷ b'C' ∷ b'H' ∷ b'0' ∷ b'0' ∷ []

abbrev pub magic_ca : Bytes
magic_ca = b'E' ∷ b'G' ∷ b'G' ∷ b'_' ∷ b'C' ∷ b'A' ∷ b'0' ∷ b'0' ∷ []

-- `bytes[from..to]`
abbrev pub slice : ℕ → ℕ → Bytes → Bytes
slice from to bytes = take (to - from) (drop from bytes)

unfoldable pub encode_tip : ChainTip → Bytes
encode_tip tip = magic_tip ++ (to_be_bytes 8 tip.height ++ tip.hash)

unfoldable pub decode_tip : Bytes → Result StoreError ChainTip
decode_tip bytes =
    if ltb (length bytes) (8 + 8 + 32)
    then err (decode "tip: unexpected eof")
    else if not (bytes_eq (slice 0 8 bytes) magic_tip)
    then err (decode "tip: invalid magic")
    else ok (record { height = from_be_bytes (slice 8 16 bytes); hash = slice 16 48 bytes })

unfoldable pub encode_meta : ChainMeta → Bytes
encode_meta meta =
    magic_met ++ (to_be_bytes 4 meta.chain_id ++ (meta.genesis_id ++ meta.chainspec_hash))

unfoldable pub decode_meta : Bytes → Result StoreError ChainMeta
decode_meta bytes =
    if ltb (length bytes) (8 + 4 + 32 + 32)
    then err (decode "meta: unexpected eof")
    else if not (bytes_eq (slice 0 8 bytes) magic_met)
    then err (decode "meta: invalid magic")
    else ok (record {
      chain_id = from_be_bytes (slice 8 12 bytes);
      genesis_id = slice 12 44 bytes;
      chainspec_hash = slice 44 76 bytes;
    })

unfoldable pub encode_block_meta : BlockMeta → Bytes
encode_block_meta meta = magic_bm ++ (meta.parent ++ to_be_bytes 8 meta.height)

unfoldable pub decode_block_meta : Bytes → Result StoreError BlockMeta
decode_block_meta bytes =
    if ltb (length bytes) (8 + 32 + 8)
    then err (decode "bmeta: unexpected eof")
    else if not (bytes_eq (slice 0 8 bytes) magic_bm)
    then err (decode "bmeta: invalid magic")
    else ok (record { parent = slice 8 40 bytes; height = from_be_bytes (slice 40 48 bytes) })

-- `for h in children { out.extend_from_slice(&h.0) }`
unfoldable pub concat : List Hash256 → Bytes
concat [] = []
concat (h ∷ hs) = h ++ concat hs

unfoldable pub encode_children : List Hash256 → Bytes
unfolding concat
encode_children children =
    magic_ch ++ (to_be_bytes 4 (saturate_u32 (length children)) ++ concat children)

-- The `for` loop of `decode_children`, over the bytes from `off` on.
unfoldable pub hashes : ℕ → Bytes → List Hash256
hashes zero bytes = []
hashes (suc n) bytes = take 32 bytes ∷ hashes n (drop 32 bytes)

unfoldable pub decode_children : Bytes → Result StoreError (List Hash256)
unfolding hashes
decode_children bytes =
    if ltb (length bytes) (8 + 4)
    then err (decode "child: unexpected eof")
    else if not (bytes_eq (slice 0 8 bytes) magic_ch)
    then err (decode "child: invalid magic")
    else let n = from_be_bytes (slice 8 12 bytes) in
      if not (length bytes == 8 + 4 + 32 * n)
      then err (decode "child: length mismatch")
      else ok (hashes n (drop 12 bytes))

unfoldable pub encode_canon : Hash256 → Bytes
encode_canon hash = magic_ca ++ hash

unfoldable pub decode_canon : Bytes → Result StoreError Hash256
decode_canon bytes =
    if ltb (length bytes) (8 + 32)
    then err (decode "canon: unexpected eof")
    else if not (bytes_eq (slice 0 8 bytes) magic_ca)
    then err (decode "canon: invalid magic")
    else ok (slice 8 40 bytes)
