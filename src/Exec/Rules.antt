-- ===== src/Exec/Rules.antt =====
-- Rules for what a method leaves behind: a relation of the states before and after, and a condition
-- on the result and the state.
use egg_project.Prelude.{Result, ok, err}
use egg_project.Exec.{Exec, ◌>>=◌, ◌>>◌, continue}

pub record Keeps {S E A : Type 0} (R : S → S → Type 0) (m : Exec S E A) : Type 0 where
  pub keeps : (s : S) → R s (m s).1

module _ {S E : Type 0} (R : S → S → Type 0) (R_trans : (a b c : S) → R a b → R b c → R a c)
    {A B : Type 0} where
  pub keeps_bind :
      (m : Exec S E A) (f : A → Exec S E B)
      → Keeps R m
      → ((a : A) → Keeps R (f a))
      → Keeps R (m >>= f)
  unfolding ◌>>=◌
  keeps_bind m f hm hf = record { keeps = λ s. go s (m s).0 (m s).1 (hm.keeps s) }
    where
      go : (s : S) (r : Result E A) (x : S) → R s x → R s (continue r f x).1
      go s (ok a) x p = R_trans s x (f a x).1 p ((hf a).keeps x)
      go s (err e) x p = p

  pub keeps_then : (m : Exec S E A) (n : Exec S E B) → Keeps R m → Keeps R n → Keeps R (m >> n)
  unfolding ◌>>◌
  keeps_then m n hm hn = keeps_bind m (λ _. n) hm (λ _. hn)

-- `P` holds of the result and the state behind a success, and `Q` of the state behind an error.
abbrev pub Ensures : {S E A : Type 0} → (A → S → Type 0) → (S → Type 0) → Result E A × S → Type 0
Ensures P Q (ok a, s) = P a s
Ensures P Q (err e, s) = Q s

module _ {S E A : Type 0} (P : A → S → Type 0) (Q : S → Type 0) where
  pub Ensures-both : (p : Result E A × S) → ((a : A) → P a p.1) → Q p.1 → Ensures {E = E} P Q p
  Ensures-both (ok a, s) h k = h a
  Ensures-both (err e, s) h k = k

  -- What holds of the state behind every outcome.
  pub ensures_any :
      {T : S → Type 0} (p : Result E A × S)
      → Ensures {E = E} P Q p
      → ((a : A) (s : S) → P a s → T s)
      → ((s : S) → Q s → T s)
      → T p.1
  ensures_any (ok a, s) h f g = f a s h
  ensures_any (err e, s) h f g = g s h

  pub Ensures-weaken :
      (P' : A → S → Type 0) (p : Result E A × S)
      → Ensures {E = E} P Q p
      → ((a : A) (s : S) → P a s → P' a s)
      → Ensures {E = E} P' Q p
  Ensures-weaken P' (ok a, s) h f = f a s h
  Ensures-weaken P' (err e, s) h f = h

  pub Ensures-and :
      (T : S → Type 0) (p : Result E A × S)
      → Ensures {E = E} P Q p
      → T p.1
      → Ensures {E = E} (λ a s. P a s × T s) Q p
  Ensures-and T (ok a, s) h k = (h, k)
  Ensures-and T (err e, s) h k = h

  module _ {B : Type 0} (P' : B → S → Type 0) where
    pub Ensures-bind :
        (m : Exec S E A) (f : A → Exec S E B) (s : S)
        → Ensures {E = E} P Q (m s)
        → ((a : A) (x : S) → P a x → Ensures {E = E} P' Q (f a x))
        → Ensures {E = E} P' Q ((m >>= f) s)
    unfolding ◌>>=◌
    Ensures-bind m f s h k = go (m s) h
      where
        go : (p : Result E A × S) → Ensures P Q p → Ensures P' Q (continue p.0 f p.1)
        go (ok a, x) h = k a x h
        go (err e, x) h = h

    pub Ensures-then :
        (m : Exec S E A) (n : Exec S E B) (s : S)
        → Ensures {E = E} P Q (m s)
        → ((a : A) (x : S) → P a x → Ensures {E = E} P' Q (n x))
        → Ensures {E = E} P' Q ((m >> n) s)
    unfolding ◌>>◌
    Ensures-then m n s h k = Ensures-bind m (λ _. n) s h k

-- From a state with `I`, a success leaves one with `J`, and an error one with `Q`.
pub record Leads {S E A : Type 0} (I J Q : S → Type 0) (m : Exec S E A) : Type 0 where
  pub leads : (s : S) → I s → Ensures (λ _. J) Q (m s)

abbrev pub Preserves : {S E A : Type 0} → (S → Type 0) → (S → Type 0) → Exec S E A → Type 0
Preserves I Q m = Leads I I Q m

module _ {S E A B : Type 0} (I J K Q : S → Type 0) where
  pub Leads-bind :
      (m : Exec S E A) (f : A → Exec S E B)
      → Leads I J Q m
      → ((a : A) → Leads J K Q (f a))
      → Leads I K Q (m >>= f)
  Leads-bind m f hm hf = record {
    leads =
        λ s v. Ensures-bind (λ _. J) Q (λ _. K) m f s (hm.leads s v) (λ a x w. (hf a).leads x w);
  }

  pub Leads-then :
      (m : Exec S E A) (n : Exec S E B) → Leads I J Q m → Leads J K Q n → Leads I K Q (m >> n)
  unfolding ◌>>◌
  Leads-then m n hm hn = Leads-bind m (λ _. n) hm (λ _. hn)
