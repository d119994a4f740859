-- ===== src/Canonical/Base/Reads.antt =====
-- The cursor's methods of module `canonical` read back what the push functions wrote.
use egg_project.Prelude.{
  ℕ, ◌+◌, ◌^◌, ◌<◌, ◌≡◌, ap, ◌∙◌, subst, true, false, ◌++◌, append_assoc, length, length-append,
  ltb, bytes_eq_refl, arith, ok, if◌then◌else◌,
}
use native.Mathlib.Nat.{add_assoc}
use egg_project.Prelude.Int.{ℤ, IsI64, i64_bits, i64_of_bits, i64_bits-lt, i64_of_bits-i64_bits}
use egg_project.Bytes.{
  Bytes, to_be_bytes, from_be_bytes, length-to_be_bytes, from_be_bytes-to_be_bytes,
}
use egg_project.Utf8.{is_utf8}
use egg_project.Cursor.Base.{cursor, fail}
use egg_project.Cursor.Reads.{
  Reads, bind_ok, Reads-map, take_bytes-Reads, take_bytes-Reads_len, take_u32_be-Reads,
}
use egg_project.Canonical.Base.{
  unexpected_eof, take, take_u32_be, take_i64_be, expect_magic, take_bytes_len_u32,
  take_string_len_u32,
}

pub take_i64_be-Reads : (v : ℤ) → IsI64 v → Reads take_i64_be (to_be_bytes 8 (i64_bits v)) v
unfolding take_i64_be
take_i64_be-Reads v h =
    subst (Reads take_i64_be (to_be_bytes 8 (i64_bits v)))
      (ap i64_of_bits (from_be_bytes-to_be_bytes 8 (i64_bits v) (i64_bits-lt v h))
        ∙ i64_of_bits-i64_bits v h)
      (Reads-map (take 8) (λ b. i64_of_bits (from_be_bytes b)) _ _
        (take_bytes-Reads_len unexpected_eof 8 (to_be_bytes 8 (i64_bits v))
          (length-to_be_bytes 8 (i64_bits v))))

pub expect_magic-Reads : (m : Bytes) → length m ≡ 8 → Reads (expect_magic m) m tt
unfolding expect_magic
expect_magic-Reads m h = record {
  at = λ pos rest.
      bind_ok (take 8) _ _ _ m ((take_bytes-Reads_len unexpected_eof 8 m h).at pos rest)
      ∙ rw bytes_eq_refl;
}

-- The length test passes, and the bytes are taken.
pub counted :
    (at pos : ℕ) (xs rest : Bytes)
    → (if ltb (length (xs ++ rest)) (length xs)
          then fail (unexpected_eof at (length xs) (length (xs ++ rest)))
          else take (length xs))
        (cursor pos (xs ++ rest))
      ≡ ok (xs, cursor (pos + length xs) rest)
counted at pos xs rest =
    let fits : ltb (length (xs ++ rest)) (length xs) ≡ false =
      ground (arith, length-append xs rest) in
    rw fits ((take_bytes-Reads unexpected_eof xs).at pos rest)

pub take_bytes_len_u32-Reads :
    (xs : Bytes)
    → length xs < 2 ^ 32
    → Reads take_bytes_len_u32 (to_be_bytes 4 (length xs) ++ xs) xs
unfolding take_bytes_len_u32
take_bytes_len_u32-Reads xs h = record {
  at = λ pos rest.
      rw (append_assoc, length-append)
        (bind_ok take_u32_be _ _ _ (length xs)
            ((take_u32_be-Reads unexpected_eof (length xs) h).at pos (xs ++ rest))
          ∙ counted pos _ xs rest
          ∙ ap (λ n. ok (xs, cursor n rest)) (add_assoc pos _ (length xs)));
}

pub take_string_len_u32-Reads :
    (s : Bytes)
    → is_utf8 s ≡ true
    → length s < 2 ^ 32
    → Reads take_string_len_u32 (to_be_bytes 4 (length s) ++ s) s
unfolding take_string_len_u32
take_string_len_u32-Reads s u h = record {
  at = λ pos rest.
      bind_ok take_bytes_len_u32 _ _ _ s ((take_bytes_len_u32-Reads s h).at pos rest) ∙ rw u;
}
