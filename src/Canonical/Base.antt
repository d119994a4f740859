-- ===== src/Canonical/Base.antt =====
-- The errors, the cursor's methods and the push functions of module `canonical`.
pub mod Reads
use egg_project.Prelude.{
  ℕ, ◌+◌, ◌-◌, ◌^◌, ◌<◌, ◌≡◌, refl, Bool, List, [], ◌∷◌, ◌++◌, length, Result, ok, err, ltb,
  bytes_eq, bytes_eq_refl, arith, ap, if◌then◌else◌,
}
use egg_project.Prelude.Int.{ℤ, IsI64, i64_bits, i64_of_bits, i64_bits-lt, i64_of_bits-i64_bits}
use egg_project.Bytes.{Bytes, to_be_bytes, from_be_bytes}
use egg_project.Utf8.{is_utf8}
use egg_project.Types.{Hash256}
use egg_project.Cursor.Base.{
  Parser, pure, fail, ◌>>=◌, get_position, get_remaining, take_bytes, take_u32_be as cursor_u32,
  take_u64_be as cursor_u64, take_hash256 as cursor_hash,
}

pub data CanonicalError : Type 0 where
  unexpected_eof : ℕ → ℕ → ℕ → CanonicalError
  invalid_magic : ℕ → CanonicalError
  invalid_utf8 : ℕ → CanonicalError
  length_overflow : ℕ → CanonicalError

abbrev pub magic_hdr : Bytes
magic_hdr = b'E' ∷ b'G' ∷ b'G' ∷ b'_' ∷ b'H' ∷ b'D' ∷ b'R' ∷ b'0' ∷ []

abbrev pub magic_tx : Bytes
magic_tx = b'E' ∷ b'G' ∷ b'G' ∷ b'_' ∷ b'T' ∷ b'X' ∷ b'0' ∷ 0 ∷ []

abbrev pub magic_tbd : Bytes
magic_tbd = b'E' ∷ b'G' ∷ b'G' ∷ b'_' ∷ b'T' ∷ b'B' ∷ b'D' ∷ b'0' ∷ []

abbrev pub magic_blk : Bytes
magic_blk = b'E' ∷ b'G' ∷ b'G' ∷ b'_' ∷ b'B' ∷ b'L' ∷ b'K' ∷ b'0' ∷ []

abbrev pub magic_csp : Bytes
magic_csp = b'E' ∷ b'G' ∷ b'G' ∷ b'_' ∷ b'C' ∷ b'S' ∷ b'P' ∷ b'0' ∷ []

abbrev pub take : ℕ → Parser CanonicalError Bytes
take = take_bytes unexpected_eof

abbrev pub take_u32_be : Parser CanonicalError ℕ
take_u32_be = cursor_u32 unexpected_eof

abbrev pub take_u64_be : Parser CanonicalError ℕ
take_u64_be = cursor_u64 unexpected_eof

abbrev pub take_hash256 : Parser CanonicalError Hash256
take_hash256 = cursor_hash unexpected_eof

unfoldable pub take_i64_be : Parser CanonicalError ℤ
take_i64_be = do b ← take 8; pure (i64_of_bits (from_be_bytes b))

unfoldable pub expect_magic : Bytes → Parser CanonicalError (Unit {0})
expect_magic m = do
  at ← get_position
  b ← take 8
  if bytes_eq b m then pure tt else fail (invalid_magic at)

unfoldable pub take_bytes_len_u32 : Parser CanonicalError Bytes
take_bytes_len_u32 = do
  at ← get_position
  len ← take_u32_be
  rem ← get_remaining
  if ltb rem len then fail (unexpected_eof at len rem) else take len

unfoldable pub take_string_len_u32 : Parser CanonicalError Bytes
take_string_len_u32 = do
  at ← get_position
  bytes ← take_bytes_len_u32
  if is_utf8 bytes then pure bytes else fail (invalid_utf8 at)

abbrev pub push_u32_be : Bytes → ℕ → Bytes
push_u32_be out v = out ++ to_be_bytes 4 v

abbrev pub push_u64_be : Bytes → ℕ → Bytes
push_u64_be out v = out ++ to_be_bytes 8 v

abbrev pub push_i64_be : Bytes → ℤ → Bytes
push_i64_be out v = out ++ to_be_bytes 8 (i64_bits v)

-- `len.try_into()` to `u32` fails from 2 ^ 32 on.
unfoldable pub push_bytes_len_u32 : Bytes → Bytes → Result CanonicalError Bytes
push_bytes_len_u32 out bytes =
    if ltb (length bytes) (2 ^ 32)
    then ok (push_u32_be out (length bytes) ++ bytes)
    else err (length_overflow (length out))

unfoldable pub push_string_len_u32 : Bytes → Bytes → Result CanonicalError Bytes
unfolding push_bytes_len_u32
push_string_len_u32 = push_bytes_len_u32

-- `len.try_into().unwrap_or(u32::MAX)`
unfoldable pub saturate_u32 : ℕ → ℕ
saturate_u32 n = if ltb n (2 ^ 32) then n else 2 ^ 32 - 1

pub saturate_u32_fits : (n : ℕ) → n < 2 ^ 32 → saturate_u32 n ≡ n
unfolding saturate_u32
saturate_u32_fits n h = ground arith
