-- ===== src/Canonical/Header.antt =====
-- `encode_block_header` and `decode_block_header`.
use egg_project.Prelude.{◌≡◌, ◌++◌, append_assoc, length, length-append, Result, ok, arith}
use egg_project.Prelude.Int.{i64_bits}
use egg_project.Bytes.{Bytes, to_be_bytes, length-to_be_bytes}
use egg_project.Types.{BlockHeader, IsHeader}
use egg_project.Cursor.Base.{Parser, pure, ◌>>=◌, ◌>>◌, run}
use egg_project.Cursor.Reads.{
  Reads, Reads-bind, Reads-map, run-Reads, take_u32_be-Reads, take_u64_be-Reads, take_hash256-Reads,
}
use egg_project.Canonical.Base.{
  CanonicalError, magic_hdr, take_u32_be, take_u64_be, take_i64_be, take_hash256, expect_magic,
  push_u32_be, push_u64_be, push_i64_be,
}
use egg_project.Canonical.Base.Reads.{expect_magic-Reads, take_i64_be-Reads}

unfoldable pub encode_block_header : BlockHeader → Bytes
encode_block_header h =
    let out = magic_hdr ++ h.parent in
    let out = push_u64_be out h.height in
    let out = push_i64_be out h.timestamp_utc in
    let out = push_u64_be out h.nonce in
    let out = out ++ h.merkle_root in push_u32_be out h.pow_difficulty_bits

abbrev header_parser : Parser CanonicalError BlockHeader
header_parser = do
  expect_magic magic_hdr
  parent ← take_hash256
  height ← take_u64_be
  timestamp_utc ← take_i64_be
  nonce ← take_u64_be
  merkle_root ← take_hash256
  pow_difficulty_bits ← take_u32_be
  pure (record {
    parent = parent;
    height = height;
    timestamp_utc = timestamp_utc;
    nonce = nonce;
    merkle_root = merkle_root;
    pow_difficulty_bits = pow_difficulty_bits;
  })

unfoldable pub decode_block_header : Bytes → Result CanonicalError BlockHeader
decode_block_header = run header_parser

-- The encoding, bracketed as the decoder reads it.
encoding : BlockHeader → Bytes
encoding h =
    magic_hdr
    ++ (h.parent
        ++ (to_be_bytes 8 h.height
            ++ (to_be_bytes 8 (i64_bits h.timestamp_utc)
                ++ (to_be_bytes 8 h.nonce
                    ++ (h.merkle_root ++ to_be_bytes 4 h.pow_difficulty_bits)))))

encode_block_header-encoding : (h : BlockHeader) → encode_block_header h ≡ encoding h
unfolding encode_block_header encoding
encode_block_header-encoding h = simp append_assoc

header_parser-Reads : (h : BlockHeader) → IsHeader h → Reads header_parser (encode_block_header h) h
header_parser-Reads h v = rw encode_block_header-encoding (
    unfold encoding in
    Reads-bind _ _ _ _ _ _ (expect_magic-Reads magic_hdr (omega arith)) (
      Reads-bind _ _ _ _ _ _ (take_hash256-Reads _ _ v.parent_ok) (
        Reads-bind _ _ _ _ _ _ (take_u64_be-Reads _ _ v.height_ok) (
          Reads-bind _ _ _ _ _ _ (take_i64_be-Reads _ v.timestamp_ok) (
            Reads-bind _ _ _ _ _ _ (take_u64_be-Reads _ _ v.nonce_ok) (
              Reads-bind _ _ _ _ _ _ (take_hash256-Reads _ _ v.root_ok)
                (Reads-map _ _ _ _ (take_u32_be-Reads _ _ v.bits_ok))))))))

-- `decode_block_header` returns the header that `encode_block_header` wrote, for every header of
-- the Rust type, whatever bytes follow.
pub decode_block_header-encode_block_header :
    (h : BlockHeader) (rest : Bytes)
    → IsHeader h
    → decode_block_header (encode_block_header h ++ rest) ≡ ok h
unfolding decode_block_header
decode_block_header-encode_block_header h rest v =
    run-Reads header_parser (encode_block_header h) rest h (header_parser-Reads h v)

-- Every encoded header has 100 bytes.
pub length-encode_block_header :
    (h : BlockHeader) → IsHeader h → length (encode_block_header h) ≡ 100
length-encode_block_header h v =
    rw encode_block_header-encoding
      (unfold encoding in simp (length-append, length-to_be_bytes, v.parent_ok.len, v.root_ok.len))
