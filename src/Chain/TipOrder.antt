-- ===== src/Chain/TipOrder.antt =====
-- The order of tips, and the code's test for it.
use egg_project.Prelude.{
  ◌<◌, ◌≡◌, refl, sym, ◌∙◌, ◌⊎◌, inl, inr, true, bytes_lt_trans, arith, subst, ◌↔◌,
}
use egg_project.Types.{Hash256, Height}
use egg_project.Store.Records.{ChainTip}
use egg_project.Chain.Defs.{hash_lt}
use egg_project.Chain.Reorg.{better}

-- The order of tips: a higher one is above, and of two at one height the one with the smaller hash.
pub data Above (new old : ChainTip) : Type 0 where
  higher : old.height < new.height → Above new old
  smaller : new.height ≡ old.height → hash_lt new.hash old.hash ≡ true → Above new old

abbrev pub NoWorse : ChainTip → ChainTip → Type 0
NoWorse old new = (new ≡ old) ⊎ Above new old

Above-trans : (a b c : ChainTip) → Above b a → Above c b → Above c a
Above-trans a b c (higher h) (higher k) = higher (omega arith)
Above-trans a b c (higher h) (smaller e l) = higher (omega arith)
Above-trans a b c (smaller e l) (higher k) = higher (omega arith)
Above-trans a b c (smaller e l) (smaller f m) =
    smaller (f ∙ e) (bytes_lt_trans c.hash b.hash a.hash m l)

pub NoWorse-refl : (t : ChainTip) → NoWorse t t
NoWorse-refl t = inl refl

pub NoWorse-trans : (a b c : ChainTip) → NoWorse a b → NoWorse b c → NoWorse a c
NoWorse-trans a b c h (inl q) = subst (NoWorse a) (sym q) h
NoWorse-trans a b c (inl e) (inr k) = inr (subst (Above c) e k)
NoWorse-trans a b c (inr h) (inr k) = inr (Above-trans a b c h k)

better_tests :
    (x : Hash256) (h : Height) (t : ChainTip)
    → better x h t ≡ true
    → (t.height < h) ⊎ ((h ≡ t.height) × (hash_lt x t.hash ≡ true))
unfolding better
better_tests x h t e = ground arith

tests_better :
    (x : Hash256) (h : Height) (t : ChainTip)
    → Above (record { height = h; hash = x }) t
    → better x h t ≡ true
tests_better x h t (higher l) = unfold better in ground arith
tests_better x h t (smaller q l) = unfold better in ground arith

-- The code's test decides the order.
pub better-Above :
    (x : Hash256) (h : Height) (t : ChainTip)
    → (better x h t ≡ true) ↔ Above (record { height = h; hash = x }) t
better-Above x h t = (
  λ e. elim (better_tests x h t e) [ inl l ↦ higher l | inr q ↦ smaller q.0 q.1 ],
  tests_better x h t,
)
