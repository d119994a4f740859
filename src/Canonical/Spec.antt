-- ===== src/Canonical/Spec.antt =====
-- `encode_chainspec` and `decode_chainspec`.
use egg_project.Prelude.{
  ◌^◌, ◌<◌, ◌≡◌, ◌++◌, append_assoc, length, Result, ok, arith, lt→ltb, and_then,
}
use egg_project.Prelude.Int.{i64_bits}
use egg_project.Bytes.{Bytes, to_be_bytes}
use egg_project.Types.{ChainSpec, IsSpec}
use egg_project.Cursor.Base.{Parser, pure, ◌>>=◌, ◌>>◌, run}
use egg_project.Cursor.Reads.{
  Reads, Reads-bind, Reads-map, run-Reads, take_u32_be-Reads, take_u64_be-Reads,
}
use egg_project.Canonical.Base.{
  CanonicalError, magic_csp, take_u32_be, take_u64_be, take_i64_be, expect_magic,
  take_string_len_u32, push_u32_be, push_u64_be, push_i64_be, push_string_len_u32,
}
use egg_project.Canonical.Base.Reads.{
  expect_magic-Reads, take_i64_be-Reads, take_string_len_u32-Reads,
}

-- The error is the panic of `expect`, on a name of 2 ^ 32 bytes or more.
unfoldable pub encode_chainspec : ChainSpec → Result CanonicalError Bytes
unfolding push_string_len_u32
encode_chainspec spec =
    let out = push_u32_be magic_csp spec.spec_version in
    let out = push_u32_be out spec.chain.chain_id in
    and_then (push_string_len_u32 out spec.chain.chain_name) λ out.
      let out = push_i64_be out spec.genesis.timestamp_utc in
      let out = push_u32_be out spec.genesis.pow_difficulty_bits in
      ok (push_u64_be out spec.genesis.nonce)

abbrev spec_parser : Parser CanonicalError ChainSpec
spec_parser = do
  expect_magic magic_csp
  spec_version ← take_u32_be
  chain_id ← take_u32_be
  chain_name ← take_string_len_u32
  timestamp_utc ← take_i64_be
  pow_difficulty_bits ← take_u32_be
  nonce ← take_u64_be
  pure (record {
    spec_version = spec_version;
    chain = record { chain_name = chain_name; chain_id = chain_id };
    genesis = record {
      timestamp_utc = timestamp_utc;
      pow_difficulty_bits = pow_difficulty_bits;
      nonce = nonce;
    };
  })

unfoldable pub decode_chainspec : Bytes → Result CanonicalError ChainSpec
decode_chainspec = run spec_parser

unfoldable pub spec_encoding : ChainSpec → Bytes
spec_encoding s =
    magic_csp
    ++ (to_be_bytes 4 s.spec_version
        ++ (to_be_bytes 4 s.chain.chain_id
            ++ ((to_be_bytes 4 (length s.chain.chain_name) ++ s.chain.chain_name)
                ++ (to_be_bytes 8 (i64_bits s.genesis.timestamp_utc)
                    ++ (to_be_bytes 4 s.genesis.pow_difficulty_bits
                        ++ to_be_bytes 8 s.genesis.nonce)))))

pub encode_chainspec_ok :
    (s : ChainSpec) → length s.chain.chain_name < 2 ^ 32 → encode_chainspec s ≡ ok (spec_encoding s)
unfolding encode_chainspec spec_encoding
encode_chainspec_ok s h = rw (lt→ltb _ _ h) (simp append_assoc)

spec_parser-Reads :
    (s : ChainSpec)
    → IsSpec s
    → length s.chain.chain_name < 2 ^ 32
    → Reads spec_parser (spec_encoding s) s
unfolding spec_encoding
spec_parser-Reads s v h = Reads-bind _ _ _ _ _ _ (expect_magic-Reads magic_csp (omega arith)) (
    Reads-bind _ _ _ _ _ _ (take_u32_be-Reads _ _ v.version_ok) (
      Reads-bind _ _ _ _ _ _ (take_u32_be-Reads _ _ v.id_ok) (
        Reads-bind _ _ _ _ _ _ (take_string_len_u32-Reads _ v.name_utf8 h) (
          Reads-bind _ _ _ _ _ _ (take_i64_be-Reads _ v.timestamp_ok) (
            Reads-bind _ _ _ _ _ _ (take_u32_be-Reads _ _ v.bits_ok)
              (Reads-map _ _ _ _ (take_u64_be-Reads _ _ v.nonce_ok)))))))

-- A chain specification whose name is shorter than 2 ^ 32 bytes is encoded without a panic, and
-- `decode_chainspec` returns it from those bytes, whatever bytes follow.
pub decode_chainspec-encode_chainspec :
    (s : ChainSpec) (rest : Bytes)
    → IsSpec s
    → length s.chain.chain_name < 2 ^ 32
    → (bytes : Bytes) × (encode_chainspec s ≡ ok bytes) × (decode_chainspec (bytes ++ rest) ≡ ok s)
unfolding decode_chainspec
decode_chainspec-encode_chainspec s rest v h = (
  spec_encoding s,
  encode_chainspec_ok s h,
  run-Reads spec_parser (spec_encoding s) rest s (spec_parser-Reads s v h),
)
