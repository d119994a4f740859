-- ===== src/Cursor/Reads.antt =====
-- What it is for a parser to read a value back from its encoding, and the rules by which a
-- decoder's `do` block is followed step by step.
use egg_project.Prelude.{
  ℕ, ◌+◌, ◌≡◌, refl, ap, ◌∙◌, subst, false, [], ◌++◌, append_assoc, length, length-append,
  take_append_length, drop_append_length, ok, ltb, arith,
}
use egg_project.Bytes.{
  Bytes, to_be_bytes, from_be_bytes, length-to_be_bytes, from_be_bytes-to_be_bytes,
}
use egg_project.Types.{Hash256, IsHash, IsU32, IsU64}
use egg_project.Cursor.Base.{
  Cursor, cursor, Parser, pure, ◌>>=◌, run, take_bytes, take_u32_be, take_u64_be, take_hash256,
}

-- Wherever the bytes `xs` come next, `p` returns `a` and stands behind them.
pub record Reads {E A : Type 0} (p : Parser E A) (xs : Bytes) (a : A) : Type 0 where
  pub at :
      (pos : ℕ) (rest : Bytes) → p (cursor pos (xs ++ rest)) ≡ ok (a, cursor (pos + length xs) rest)

module _ {E A : Type 0} where
  pub Reads-pure : (a : A) → Reads {E = E} (pure a) [] a
  Reads-pure a = record { at = λ pos rest. ap (λ n. ok (a, cursor n rest)) (omega arith) }

module _ {E A B : Type 0} where
  pub bind_ok :
      (p : Parser E A) (f : A → Parser E B) (c d : Cursor) (a : A)
      → p c ≡ ok (a, d)
      → (p >>= f) c ≡ f a d
  bind_ok p f c d a h = rw (h, ◌>>=◌)

  pub Reads-bind :
      (p : Parser E A) (f : A → Parser E B) (xs ys : Bytes) (a : A) (b : B)
      → Reads p xs a
      → Reads (f a) ys b
      → Reads (p >>= f) (xs ++ ys) b
  Reads-bind p f xs ys a b h k = record {
    at = λ pos rest. rw append_assoc (
        bind_ok p f _ (cursor (pos + length xs) (ys ++ rest)) a (h.at pos (ys ++ rest))
        ∙ k.at (pos + length xs) rest
        ∙ ap (λ n. ok (b, cursor n rest)) (omega (arith, length-append xs ys)));
  }

module _ {E A : Type 0} where
  pub run-Reads :
      (p : Parser E A) (xs rest : Bytes) (a : A) → Reads p xs a → run p (xs ++ rest) ≡ ok a
  run-Reads p xs rest a h = rw (h.at 0 rest, run)

  -- A parser of one value followed by a pure function of it.
  pub Reads-map :
      {B : Type 0} (p : Parser E A) (g : A → B) (xs : Bytes) (a : A)
      → Reads p xs a
      → Reads (p >>= λ x. pure (g x)) xs (g a)
  Reads-map p g xs a h = record { at = λ pos rest. bind_ok p _ _ _ a (h.at pos rest) }

module _ {E : Type 0} (eof : ℕ → ℕ → ℕ → E) where
  enough : (n : ℕ) (xs rest : Bytes) → length xs ≡ n → ltb (length (xs ++ rest)) n ≡ false
  enough n xs rest h = ground (arith, length-append xs rest)

  pub take_bytes-Reads : (xs : Bytes) → Reads (take_bytes eof (length xs)) xs xs
  unfolding take_bytes
  take_bytes-Reads xs = record {
    at = λ pos rest.
        rw
          (enough (length xs) xs rest refl, take_append_length xs rest, drop_append_length xs rest);
  }

  pub take_bytes-Reads_len : (n : ℕ) (xs : Bytes) → length xs ≡ n → Reads (take_bytes eof n) xs xs
  take_bytes-Reads_len n xs h = rw (← h) (take_bytes-Reads xs)

  pub take_u32_be-Reads : (v : ℕ) → IsU32 v → Reads (take_u32_be eof) (to_be_bytes 4 v) v
  unfolding take_u32_be
  take_u32_be-Reads v h =
      subst (Reads (take_u32_be eof) (to_be_bytes 4 v)) (from_be_bytes-to_be_bytes 4 v h) (
        Reads-map (take_bytes eof 4) from_be_bytes (to_be_bytes 4 v) (to_be_bytes 4 v)
          (take_bytes-Reads_len 4 (to_be_bytes 4 v) (length-to_be_bytes 4 v)))

  pub take_u64_be-Reads : (v : ℕ) → IsU64 v → Reads (take_u64_be eof) (to_be_bytes 8 v) v
  unfolding take_u64_be
  take_u64_be-Reads v h =
      subst (Reads (take_u64_be eof) (to_be_bytes 8 v)) (from_be_bytes-to_be_bytes 8 v h) (
        Reads-map (take_bytes eof 8) from_be_bytes (to_be_bytes 8 v) (to_be_bytes 8 v)
          (take_bytes-Reads_len 8 (to_be_bytes 8 v) (length-to_be_bytes 8 v)))

  pub take_hash256-Reads : (h : Hash256) → IsHash h → Reads (take_hash256 eof) h h
  unfolding take_hash256
  take_hash256-Reads h k = take_bytes-Reads_len 32 h k.len
