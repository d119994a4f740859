-- ===== src/Prelude/Assoc.antt =====
-- The standard library's `HashMap` and `HashSet` with byte-string keys, as association lists. The
-- program iterates over one of its maps only, and there the order is a parameter.
use Prim.Native.Nat.{ℕ, ◌+◌}
use mathlib.Core.Path.{◌≡◌, refl}
use mathlib.Core.Logic.{inl, inr}
use mathlib.Core.Bool.{Bool, true, false}
use mathlib.Core.Option.{Option, none, some}
use mathlib.Core.List.{List, [], ◌∷◌}
use native.Mathlib.Omega.{arith}
use egg_project.Prelude.Tests.{if◌then◌else◌, bytes_eq, bytes_eq_iff, Bool-cases}
use egg_project.Prelude.Lists.{length}

abbrev pub Assoc {ℓ} : Type ℓ → Type ℓ
Assoc V = List (List ℕ × V)

module _ {ℓ} {V : Type ℓ} where
  unfoldable pub lookup : List ℕ → Assoc V → Option V
  lookup k [] = none
  lookup k ((j, v) ∷ m) = if bytes_eq j k then some v else lookup k m

  unfoldable pub contains_key : List ℕ → Assoc V → Bool
  contains_key k m = elim (lookup k m) [ none ↦ false | some _ ↦ true ]

  unfoldable pub insert : List ℕ → V → Assoc V → Assoc V
  insert k v [] = (k, v) ∷ []
  insert k v ((j, w) ∷ m) = if bytes_eq j k then (j, v) ∷ m else (j, w) ∷ insert k v m

  unfoldable pub remove : List ℕ → Assoc V → Assoc V
  remove k [] = []
  remove k ((j, v) ∷ m) = let rest = remove k m in if bytes_eq j k then rest else (j, v) ∷ rest

  pub lookup-insert :
      (k j : List ℕ) (v : V) (m : Assoc V)
      → lookup j (insert k v m) ≡ (if bytes_eq k j then some v else lookup j m)
  unfolding lookup insert
  lookup-insert k j v [] = refl
  lookup-insert k j v ((i, w) ∷ m) =
      ground (arith, bytes_eq_iff k j, bytes_eq_iff i k, bytes_eq_iff i j, lookup-insert k j v m)

  pub lookup-remove :
      (k j : List ℕ) (m : Assoc V)
      → lookup j (remove k m) ≡ (if bytes_eq k j then none else lookup j m)
  unfolding lookup remove
  lookup-remove k j [] = ground arith
  lookup-remove k j ((i, w) ∷ m) =
      ground (arith, bytes_eq_iff k j, bytes_eq_iff i k, bytes_eq_iff i j, lookup-remove k j m)

  -- No key stands twice.
  abbrev pub Unique : Assoc V → Type ℓ
  Unique [] = Unit {ℓ}
  Unique ((k, v) ∷ m) = (lookup k m ≡ none) × Unique m

  pub insert-Unique : (k : List ℕ) (v : V) (m : Assoc V) → Unique m → Unique (insert k v m)
  insert-Unique k v [] u = unfold lookup insert in (refl, tt)
  insert-Unique k v ((j, w) ∷ m) (fresh, u) = step (insert-Unique k v m u)
    where
      step : Unique (insert k v m) → Unique (insert k v ((j, w) ∷ m))
      step ih =
          unfold insert in
          elim (Bool-cases (bytes_eq j k)) [
            | inl e ↦ rw e (fresh, u)
            | inr e ↦
                rw e (grind (arith, lookup-insert k j v m, bytes_eq_iff k j, bytes_eq_iff j k), ih)
          ]

  pub remove-Unique : (k : List ℕ) (m : Assoc V) → Unique m → Unique (remove k m)
  remove-Unique k [] u = unfold remove in tt
  remove-Unique k ((j, w) ∷ m) (fresh, u) = step (remove-Unique k m u)
    where
      step : Unique (remove k m) → Unique (remove k ((j, w) ∷ m))
      step ih =
          unfold remove in
          elim (Bool-cases (bytes_eq j k)) [
            | inl e ↦ rw e ih
            | inr e ↦ rw e (ground (arith, lookup-remove k j m), ih)
          ]

  -- The sum of a measure over the values.
  unfoldable pub total : (V → ℕ) → Assoc V → ℕ
  total f [] = 0
  total f ((k, v) ∷ m) = f v + total f m

  pub total-insert_new :
      (f : V → ℕ) (k : List ℕ) (v : V) (m : Assoc V)
      → lookup k m ≡ none
      → total f (insert k v m) ≡ total f m + f v
  unfolding total lookup insert
  total-insert_new f k v [] h = omega arith
  total-insert_new f k v ((j, w) ∷ m) h = ground (arith, total-insert_new f k v m)

  pub length-insert_new :
      (k : List ℕ) (v : V) (m : Assoc V) → lookup k m ≡ none → length (insert k v m) ≡ length m + 1
  unfolding lookup insert
  length-insert_new k v [] h = omega arith
  length-insert_new k v ((j, w) ∷ m) h = ground (arith, length-insert_new k v m)

  pub remove_absent : (k : List ℕ) (m : Assoc V) → lookup k m ≡ none → remove k m ≡ m
  unfolding lookup remove
  remove_absent k [] h = refl
  remove_absent k ((j, w) ∷ m) h = ground (arith, remove_absent k m)

  pub total-remove :
      (f : V → ℕ) (k : List ℕ) (v : V) (m : Assoc V)
      → Unique m
      → lookup k m ≡ some v
      → total f m ≡ total f (remove k m) + f v
  unfolding total lookup remove
  total-remove f k v [] u h = ground arith
  total-remove f k v ((j, w) ∷ m) u h =
      ground (arith, total-remove f k v m, remove_absent k m, bytes_eq_iff j k)

  pub length-remove :
      (k : List ℕ) (v : V) (m : Assoc V)
      → Unique m
      → lookup k m ≡ some v
      → length m ≡ length (remove k m) + 1
  unfolding lookup remove
  length-remove k v [] u h = ground arith
  length-remove k v ((j, w) ∷ m) u h =
      ground (arith, length-remove k v m, remove_absent k m, bytes_eq_iff j k)
