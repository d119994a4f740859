-- ===== src/Prelude/Tests.antt =====
-- Boolean tests on numbers and on byte strings, and the conditional.
use Prim.Native.Nat.{ℕ, ◌≤◌, ◌<◌, compare, Ordering}
use mathlib.Core.Path.{◌≡◌, refl}
use mathlib.Core.Logic.{◌≢◌, ◌↔◌, ◌⊎◌, inl, inr}
use mathlib.Core.Bool.{Bool, true, false, ◌&&◌}
use mathlib.Core.Option.{Option, none, some}
use mathlib.Core.List.{List, [], ◌∷◌}
use native.Mathlib.Omega.{arith}

abbrev pub ltb : ℕ → ℕ → Bool
ltb a b = elim (compare a b) [ Ordering.lt ↦ true | _ ↦ false ]

abbrev pub leb : ℕ → ℕ → Bool
leb a b = elim (compare a b) [ Ordering.gt ↦ false | _ ↦ true ]

infix 50 ◌==◌
abbrev pub ◌==◌ : ℕ → ℕ → Bool
a == b = elim (compare a b) [ Ordering.eq ↦ true | _ ↦ false ]

infix 1 if◌then◌else◌
abbrev pub if◌then◌else◌ {ℓ} : {A : Type ℓ} → Bool → A → A → A
if true then x else y = x
if false then x else y = y

pub ltb→lt : (a b : ℕ) → ltb a b ≡ true → a < b
ltb→lt a b h = ground arith

pub lt→ltb : (a b : ℕ) → a < b → ltb a b ≡ true
lt→ltb a b h = ground arith

pub leb→le : (a b : ℕ) → leb a b ≡ true → a ≤ b
leb→le a b h = ground arith

pub le→leb : (a b : ℕ) → a ≤ b → leb a b ≡ true
le→leb a b h = ground arith

pub ==_iff : (a b : ℕ) → ((a == b) ≡ true) ↔ (a ≡ b)
==_iff a b = ground arith

-- To split on a computed value and keep the equation.
pub Bool-cases : (b : Bool) → (b ≡ true) ⊎ (b ≡ false)
Bool-cases true = inl refl
Bool-cases false = inr refl

pub Option-cases {ℓ} : {A : Type ℓ} (o : Option A) → (o ≡ none) ⊎ ((a : A) × (o ≡ some a))
Option-cases none = inl refl
Option-cases (some a) = inr (a, refl)

-- `==` on byte arrays and vectors.
unfoldable pub bytes_eq : List ℕ → List ℕ → Bool
bytes_eq [] [] = true
bytes_eq (a ∷ xs) (b ∷ ys) = (a == b) && bytes_eq xs ys
bytes_eq _ _ = false

pub bytes_eq_refl : (xs : List ℕ) → bytes_eq xs xs ≡ true
unfolding bytes_eq
bytes_eq_refl [] = refl
bytes_eq_refl (a ∷ xs) = ground (arith, bytes_eq_refl xs)

pub bytes_eq→eq : (xs ys : List ℕ) → bytes_eq xs ys ≡ true → xs ≡ ys
unfolding bytes_eq
bytes_eq→eq [] [] h = refl
bytes_eq→eq [] (b ∷ ys) h = ground arith
bytes_eq→eq (a ∷ xs) [] h = ground arith
bytes_eq→eq (a ∷ xs) (b ∷ ys) h = ground (arith, bytes_eq→eq xs ys)

pub bytes_eq_iff : (xs ys : List ℕ) → (bytes_eq xs ys ≡ true) ↔ (xs ≡ ys)
bytes_eq_iff xs ys = (bytes_eq→eq xs ys, λ e. rw e (bytes_eq_refl ys))

pub bytes_eq_ne : (xs ys : List ℕ) → xs ≢ ys → bytes_eq xs ys ≡ false
bytes_eq_ne xs ys h = elim (Bool-cases (bytes_eq xs ys)) [
  | inl e ↦ absurd (h (bytes_eq→eq xs ys e))
  | inr e ↦ e
]

-- `<` on byte arrays of one length is the lexicographic order.
unfoldable pub bytes_lt : List ℕ → List ℕ → Bool
bytes_lt [] [] = false
bytes_lt [] (b ∷ ys) = true
bytes_lt (a ∷ xs) [] = false
bytes_lt (a ∷ xs) (b ∷ ys) = if ltb a b then true else ((a == b) && bytes_lt xs ys)

pub bytes_lt_irrefl : (xs : List ℕ) → bytes_lt xs xs ≡ false
unfolding bytes_lt
bytes_lt_irrefl [] = refl
bytes_lt_irrefl (a ∷ xs) = ground (arith, bytes_lt_irrefl xs)

pub bytes_lt_trans :
    (xs ys zs : List ℕ) → bytes_lt xs ys ≡ true → bytes_lt ys zs ≡ true → bytes_lt xs zs ≡ true
unfolding bytes_lt
bytes_lt_trans [] [] zs h k = ground arith
bytes_lt_trans [] (b ∷ ys) [] h k = ground arith
bytes_lt_trans [] (b ∷ ys) (c ∷ zs) h k = refl
bytes_lt_trans (a ∷ xs) [] zs h k = ground arith
bytes_lt_trans (a ∷ xs) (b ∷ ys) [] h k = ground arith
bytes_lt_trans (a ∷ xs) (b ∷ ys) (c ∷ zs) h k = ground (arith, bytes_lt_trans xs ys zs)

pub bytes_lt_connected :
    (xs ys : List ℕ) → bytes_lt xs ys ≡ false → bytes_lt ys xs ≡ false → xs ≡ ys
unfolding bytes_lt
bytes_lt_connected [] [] h k = refl
bytes_lt_connected [] (b ∷ ys) h k = ground arith
bytes_lt_connected (a ∷ xs) [] h k = ground arith
bytes_lt_connected (a ∷ xs) (b ∷ ys) h k = ground (arith, bytes_lt_connected xs ys)
