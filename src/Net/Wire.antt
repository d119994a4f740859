-- ===== src/Net/Wire.antt =====
-- EGG-Chain/crates/egg-net/src/protocol.rs: errors, the cursor's methods and the push functions.
use egg_project.Prelude.{
  ℕ, ◌^◌, ◌<◌, ◌≡◌, ◌∙◌, ap, subst, true, [], ◌∷◌, ◌++◌, append_assoc, length, length-append,
  Result, ok, err, ltb, bytes_eq, bytes_eq_refl, if◌then◌else◌,
}
use native.Mathlib.Nat.{add_assoc}
use egg_project.Bytes.{
  Bytes, to_be_bytes, from_be_bytes, length-to_be_bytes, from_be_bytes-to_be_bytes,
}
use egg_project.Utf8.{is_utf8}
use egg_project.Types.{Hash256}
use egg_project.Canonical.Base.{CanonicalError}
use egg_project.Cursor.Base.{
  Parser, cursor, pure, fail, ◌>>=◌, get_position, take_bytes, take_u32_be as cursor_u32,
  take_u64_be as cursor_u64, take_hash256 as cursor_hash,
}
use egg_project.Cursor.Reads.{
  Reads, bind_ok, Reads-bind, Reads-map, take_bytes-Reads, take_bytes-Reads_len, take_u32_be-Reads,
}

-- `unexpected_eof at needed remaining`; `canonical` has the error whose text the Rust value keeps.
pub data ProtocolError : Type 0 where
  unexpected_eof : ℕ → ℕ → ℕ → ProtocolError
  invalid_magic : ℕ → ProtocolError
  unsupported_version : ℕ → ProtocolError
  invalid_tag : ℕ → ProtocolError
  length_overflow : ℕ → ProtocolError
  invalid_utf8 : ℕ → ProtocolError
  canonical : CanonicalError → ProtocolError

abbrev pub magic : Bytes
magic = b'E' ∷ b'G' ∷ b'G' ∷ b'N' ∷ b'E' ∷ b'T' ∷ b'0' ∷ b'0' ∷ []

abbrev pub take : ℕ → Parser ProtocolError Bytes
take = take_bytes unexpected_eof

unfoldable pub take_u8 : Parser ProtocolError ℕ
take_u8 = do b ← take 1; pure (from_be_bytes b)

unfoldable pub take_u16_be : Parser ProtocolError ℕ
take_u16_be = do b ← take 2; pure (from_be_bytes b)

abbrev pub take_u32_be : Parser ProtocolError ℕ
take_u32_be = cursor_u32 unexpected_eof

abbrev pub take_u64_be : Parser ProtocolError ℕ
take_u64_be = cursor_u64 unexpected_eof

abbrev pub take_hash256 : Parser ProtocolError Hash256
take_hash256 = cursor_hash unexpected_eof

unfoldable pub expect_magic : Parser ProtocolError (Unit {0})
expect_magic = do
  at ← get_position
  b ← take 8
  if bytes_eq b magic then pure tt else fail (invalid_magic at)

unfoldable pub take_string_len_u32 : Parser ProtocolError Bytes
take_string_len_u32 = do
  at ← get_position
  len ← take_u32_be
  bytes ← take len
  if is_utf8 bytes then pure bytes else fail (invalid_utf8 at)

unfoldable pub take_bytes_len_u32 : Parser ProtocolError Bytes
take_bytes_len_u32 = do len ← take_u32_be; take len

abbrev pub push_u8 : Bytes → ℕ → Bytes
push_u8 out v = out ++ to_be_bytes 1 v

abbrev pub push_u16_be : Bytes → ℕ → Bytes
push_u16_be out v = out ++ to_be_bytes 2 v

abbrev pub push_u32_be : Bytes → ℕ → Bytes
push_u32_be out v = out ++ to_be_bytes 4 v

abbrev pub push_u64_be : Bytes → ℕ → Bytes
push_u64_be out v = out ++ to_be_bytes 8 v

abbrev pub push_hash256 : Bytes → Hash256 → Bytes
push_hash256 out h = out ++ h

-- `len.try_into()` to `u32` fails from 2 ^ 32 on.
unfoldable pub push_bytes_len_u32 : Bytes → Bytes → Result ProtocolError Bytes
push_bytes_len_u32 out b =
    if ltb (length b) (2 ^ 32)
    then ok (push_u32_be out (length b) ++ b)
    else err (length_overflow (length out))

unfoldable pub push_string_len_u32 : Bytes → Bytes → Result ProtocolError Bytes
unfolding push_bytes_len_u32
push_string_len_u32 = push_bytes_len_u32

pub take_u8-Reads : (v : ℕ) → v < 256 → Reads take_u8 (to_be_bytes 1 v) v
unfolding take_u8
take_u8-Reads v h = subst (Reads take_u8 (to_be_bytes 1 v)) (from_be_bytes-to_be_bytes 1 v h) (
    Reads-map (take 1) from_be_bytes _ _
      (take_bytes-Reads_len unexpected_eof 1 (to_be_bytes 1 v) (length-to_be_bytes 1 v)))

pub take_u16_be-Reads : (v : ℕ) → v < 256 ^ 2 → Reads take_u16_be (to_be_bytes 2 v) v
unfolding take_u16_be
take_u16_be-Reads v h =
    subst (Reads take_u16_be (to_be_bytes 2 v)) (from_be_bytes-to_be_bytes 2 v h) (
      Reads-map (take 2) from_be_bytes _ _
        (take_bytes-Reads_len unexpected_eof 2 (to_be_bytes 2 v) (length-to_be_bytes 2 v)))

pub expect_magic-Reads : Reads expect_magic magic tt
unfolding expect_magic
expect_magic-Reads = record {
  at = λ pos rest.
      bind_ok (take 8) _ _ _ magic ((take_bytes-Reads unexpected_eof magic).at pos rest)
      ∙ rw bytes_eq_refl;
}

pub take_bytes_len_u32-Reads :
    (xs : Bytes)
    → length xs < 2 ^ 32
    → Reads take_bytes_len_u32 (to_be_bytes 4 (length xs) ++ xs) xs
unfolding take_bytes_len_u32
take_bytes_len_u32-Reads xs h =
    Reads-bind take_u32_be _ _ xs (length xs) xs (take_u32_be-Reads unexpected_eof (length xs) h)
      (take_bytes-Reads unexpected_eof xs)

pub take_string_len_u32-Reads :
    (s : Bytes)
    → is_utf8 s ≡ true
    → length s < 2 ^ 32
    → Reads take_string_len_u32 (to_be_bytes 4 (length s) ++ s) s
unfolding take_string_len_u32
take_string_len_u32-Reads s u h = record {
  at = λ pos rest.
      rw (append_assoc, length-append)
        (bind_ok take_u32_be _ _ _ (length s)
            ((take_u32_be-Reads unexpected_eof (length s) h).at pos (s ++ rest))
          ∙ bind_ok (take (length s)) _ _ _ s ((take_bytes-Reads unexpected_eof s).at _ rest)
          ∙ rw u (ap (λ n. ok (s, cursor n rest)) (add_assoc pos _ (length s))));
}
