-- ===== src/Prelude/Outcome.antt =====
-- Rust's `Result`, and methods that mutate an object and may fail.
use mathlib.Core.Path.{◌≡◌, refl}
use mathlib.Core.Logic.{◌⊎◌, inl, inr}

pub data Result {ℓ} (E A : Type ℓ) : Type ℓ where
  ok : A → Result E A
  err : E → Result E A

module _ {ℓ} {E A : Type ℓ} where
  pub Result-cases : (r : Result E A) → ((a : A) × (r ≡ ok a)) ⊎ ((e : E) × (r ≡ err e))
  Result-cases (ok a) = inl (a, refl)
  Result-cases (err e) = inr (e, refl)

module _ {ℓ} {E F A : Type ℓ} where
  -- `map_err`, and the conversion that `?` makes by `From`.
  abbrev pub map_err : (E → F) → Result E A → Result F A
  map_err f (ok a) = ok a
  map_err f (err e) = err (f e)

module _ {ℓ} {E A B : Type ℓ} where
  -- `let a = m?; f(a)`
  abbrev pub and_then : Result E A → (A → Result E B) → Result E B
  and_then (ok a) f = f a
  and_then (err e) f = err e
