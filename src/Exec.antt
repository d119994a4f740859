-- ===== src/Exec.antt =====
-- Methods that may fail and that change a store behind a shared reference. What was written before
-- a failure stays written, so the store comes back beside an error too.
pub mod Rules
pub mod Yields
use egg_project.Prelude.{Result, ok, err, map_err}

abbrev pub Exec : Type 0 → Type 0 → Type 0 → Type 0
Exec S E A = S → Result E A × S

module _ {S E A : Type 0} where
  abbrev pub pure : A → Exec S E A
  pure a s = (ok a, s)

  abbrev pub raise : E → Exec S E A
  raise e s = (err e, s)

  -- A read: it leaves the store alone.
  abbrev pub reads : (S → Result E A) → Exec S E A
  reads f s = (f s, s)

  -- `?` on a result of another error type.
  abbrev pub convert : {F : Type 0} → (E → F) → Exec S E A → Exec S F A
  convert f m s = let (r, s') = m s in (map_err f r, s')

module _ {S E A B : Type 0} where
  abbrev pub continue : Result E A → (A → Exec S E B) → Exec S E B
  continue (ok a) f s = f a s
  continue (err e) f s = (err e, s)

  infixl 5 ◌>>=◌ ◌>>◌
  unfoldable pub ◌>>=◌ : Exec S E A → (A → Exec S E B) → Exec S E B
  ◌>>=◌ m f s = let (r, s') = m s in continue r f s'

  unfoldable pub ◌>>◌ : Exec S E A → Exec S E B → Exec S E B
  unfolding ◌>>=◌
  m >> n = m >>= λ _. n
