-- ===== src/Cursor/Base.antt =====
-- Cursors, and parsers as functions on them.
use egg_project.Prelude.{ℕ, ◌+◌, Result, ok, err, length, take, drop, ltb, if◌then◌else◌}
use egg_project.Bytes.{Bytes, from_be_bytes}
use egg_project.Types.{Hash256}

pub data Cursor : Type 0 where
  cursor : ℕ → Bytes → Cursor

-- `fn new(buf)`
abbrev pub new : Bytes → Cursor
new buf = cursor 0 buf

abbrev pub position : Cursor → ℕ
position (cursor pos rest) = pos

abbrev pub remaining : Cursor → ℕ
remaining (cursor pos rest) = length rest

-- A method of a cursor that may fail. The program drops a cursor once a method has failed.
abbrev pub Parser : Type 0 → Type 0 → Type 0
Parser E A = Cursor → Result E (A × Cursor)

abbrev pub pure : {E A : Type 0} → A → Parser E A
pure a c = ok (a, c)

abbrev pub fail : {E A : Type 0} → E → Parser E A
fail e c = err e

infixl 5 ◌>>=◌ ◌>>◌
abbrev pub ◌>>=◌ : {E A B : Type 0} → Parser E A → (A → Parser E B) → Parser E B
◌>>=◌ m f c = elim (m c) [ ok (a, c') ↦ f a c' | err e ↦ err e ]

abbrev pub ◌>>◌ : {E B : Type 0} → Parser E (Unit {0}) → Parser E B → Parser E B
m >> k = m >>= λ _. k

-- The value that a decoder returns, without the cursor that it drops.
abbrev pub run : {E A : Type 0} → Parser E A → Bytes → Result E A
run p buf = elim (p (new buf)) [ ok (a, c) ↦ ok a | err e ↦ err e ]

abbrev pub get_position : {E : Type 0} → Parser E ℕ
get_position c = ok (position c, c)

abbrev pub get_remaining : {E : Type 0} → Parser E ℕ
get_remaining c = ok (remaining c, c)

-- `eof at needed remaining` is the error of a read past the end.
module _ {E : Type 0} (eof : ℕ → ℕ → ℕ → E) where
  unfoldable pub take_bytes : ℕ → Parser E Bytes
  take_bytes n (cursor pos rest) =
      if ltb (length rest) n
      then err (eof pos n (length rest))
      else ok (take n rest, cursor (pos + n) (drop n rest))

  unfoldable pub take_u32_be : Parser E ℕ
  take_u32_be = do b ← take_bytes 4; pure (from_be_bytes b)

  unfoldable pub take_u64_be : Parser E ℕ
  take_u64_be = do b ← take_bytes 8; pure (from_be_bytes b)

  unfoldable pub take_hash256 : Parser E Hash256
  take_hash256 = take_bytes 32
