-- ===== src/Exec/Yields.antt =====
-- Rules for the result of a method, whatever the state.
use egg_project.Prelude.{Result, ok, err}
use egg_project.Exec.{Exec, ◌>>=◌, ◌>>◌, continue}

-- `P` holds of what a success returns, and `F` of the error.
abbrev pub Gives : {E A : Type 0} → (A → Type 0) → (E → Type 0) → Result E A → Type 0
Gives P F (ok a) = P a
Gives P F (err e) = F e

pub record Yields {S E A : Type 0} (P : A → Type 0) (F : E → Type 0) (m : Exec S E A) : Type 0 where
  pub yields : (s : S) → Gives P F (m s).0

-- Anything.
abbrev pub Any : {A : Type 0} → A → Type 0
Any a = Unit {0}

module _ {S E A B : Type 0} (P : A → Type 0) (Q : B → Type 0) (F : E → Type 0) where
  pub Yields-bind :
      (m : Exec S E A) (f : A → Exec S E B)
      → Yields P F m
      → ((a : A) → P a → Yields Q F (f a))
      → Yields Q F (m >>= f)
  unfolding ◌>>=◌
  Yields-bind m f hm hf = record { yields = λ s. go (m s).0 (m s).1 (hm.yields s) }
    where
      go : (r : Result E A) (x : S) → Gives P F r → Gives Q F (continue r f x).0
      go (ok a) x h = (hf a h).yields x
      go (err e) x h = h

  pub Yields-then :
      (m : Exec S E A) (n : Exec S E B) → Yields P F m → Yields Q F n → Yields Q F (m >> n)
  unfolding ◌>>◌
  Yields-then m n hm hn = Yields-bind m (λ _. n) hm (λ _ _. hn)
