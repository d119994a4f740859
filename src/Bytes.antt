-- ===== src/Bytes.antt =====
-- Bytes as numbers, and the standard library's fixed-width big-endian conversions.
use egg_project.Prelude.{
  ℕ, zero, suc, ◌+◌, ◌*◌, ◌/◌, ◌%◌, ◌^◌, ◌<◌, ◌≡◌, refl, ap, List, [], ◌∷◌, ◌++◌, length,
  length-append, All, All-append, arith,
}
use native.Mathlib.Nat.{pow-suc, zero-add}

abbrev pub IsByte : ℕ → Type 0
IsByte b = b < 256

abbrev pub Bytes : Type 0
Bytes = List ℕ

-- `to_be_bytes` of an unsigned number of `n` bytes.
unfoldable pub to_be_bytes : ℕ → ℕ → Bytes
to_be_bytes zero v = []
to_be_bytes (suc n) v = to_be_bytes n (v / 256) ++ (v % 256 ∷ [])

be_value : ℕ → Bytes → ℕ
be_value acc [] = acc
be_value acc (b ∷ bs) = be_value (acc * 256 + b) bs

-- `from_be_bytes`
unfoldable pub from_be_bytes : Bytes → ℕ
unfolding be_value
from_be_bytes = be_value 0

be_value-append :
    (acc : ℕ) (xs ys : Bytes) → be_value acc (xs ++ ys) ≡ be_value (be_value acc xs) ys
unfolding be_value
be_value-append acc [] ys = refl
be_value-append acc (x ∷ xs) ys = be_value-append (acc * 256 + x) xs ys

be_value_zero : (b : ℕ) (bs : Bytes) → be_value 0 (b ∷ bs) ≡ be_value b bs
unfolding be_value
be_value_zero b bs = ap (λ (a : ℕ). be_value a bs) (zero-add b)

be_value_cons : (acc b : ℕ) (bs : Bytes) → be_value acc (b ∷ bs) ≡ be_value (acc * 256 + b) bs
unfolding be_value
be_value_cons acc b bs = refl

horner : (a b p : ℕ) → (a * 256 + b) * p ≡ a * (p * 256) + b * p
horner a b p = omega arith

-- The value by its first byte.
be_value_acc : (acc : ℕ) (bs : Bytes) → be_value acc bs ≡ acc * 256 ^ length bs + be_value 0 bs
be_value_acc acc [] = unfold be_value in omega arith
be_value_acc acc (b ∷ bs) = omega (
  arith,
  be_value_cons acc b bs,
  be_value_zero b bs,
  be_value_acc (acc * 256 + b) bs,
  be_value_acc b bs,
  horner acc b (256 ^ length bs),
  ap (λ (t : ℕ). acc * t) (pow-suc 256 (length bs)),
)

pub from_be_bytes_cons :
    (b : ℕ) (bs : Bytes) → from_be_bytes (b ∷ bs) ≡ b * 256 ^ length bs + from_be_bytes bs
unfolding from_be_bytes
from_be_bytes_cons b bs = omega (arith, be_value_zero b bs, be_value_acc b bs)

digit_lt : (b v p : ℕ) → b < 256 → v < p → b * p + v < p * 256
digit_lt b v p hb hv = grind arith

pub from_be_bytes-lt : (bs : Bytes) → All IsByte bs → from_be_bytes bs < 256 ^ length bs
from_be_bytes-lt [] h = unfold from_be_bytes in omega arith
from_be_bytes-lt (b ∷ bs) (hb, hbs) =
    rw (from_be_bytes_cons, pow-suc)
      (digit_lt b (from_be_bytes bs) (256 ^ length bs) hb (from_be_bytes-lt bs hbs))

pub length-to_be_bytes : (n v : ℕ) → length (to_be_bytes n v) ≡ n
unfolding to_be_bytes
length-to_be_bytes zero v = refl
length-to_be_bytes (suc n) v =
    omega (
      arith,
      length-append (to_be_bytes n (v / 256)) (v % 256 ∷ []),
      length-to_be_bytes n (v / 256),
    )

pub to_be_bytes-IsByte : (n v : ℕ) → All IsByte (to_be_bytes n v)
unfolding to_be_bytes
to_be_bytes-IsByte zero v = tt
to_be_bytes-IsByte (suc n) v =
    All-append IsByte (to_be_bytes n (v / 256)) (v % 256 ∷ []) (to_be_bytes-IsByte n (v / 256))
      (omega arith)

from_be_bytes-snoc :
    (bs : Bytes) (b : ℕ) → from_be_bytes (bs ++ (b ∷ [])) ≡ from_be_bytes bs * 256 + b
unfolding from_be_bytes
from_be_bytes-snoc bs b = be_value-append 0 bs (b ∷ [])

from_be_bytes-to_be_bytes-suc :
    (n v : ℕ)
    → from_be_bytes (to_be_bytes (suc n) v)
      ≡ from_be_bytes (to_be_bytes n (v / 256)) * 256 + v % 256
unfolding to_be_bytes
from_be_bytes-to_be_bytes-suc n v = from_be_bytes-snoc (to_be_bytes n (v / 256)) (v % 256)

pub from_be_bytes-to_be_bytes : (n v : ℕ) → v < 256 ^ n → from_be_bytes (to_be_bytes n v) ≡ v
from_be_bytes-to_be_bytes zero v h = unfold to_be_bytes from_be_bytes in omega arith
from_be_bytes-to_be_bytes (suc n) v h = omega (
  arith,
  from_be_bytes-to_be_bytes-suc n v,
  from_be_bytes-to_be_bytes n (v / 256) (omega (arith, pow-suc 256 n)),
)
