-- ===== src/Chain/TipChange.antt =====
-- The tip that `maybe_set_tip` leaves, whether or not the canonical chain could be rewritten.
use egg_project.Prelude.{ℕ, ◌≡◌, refl, ap, ◌∙◌, Bool, true, false, if◌then◌else◌}
use egg_project.Types.{Hash256, Height}
use egg_project.Exec.{◌>>=◌, ◌>>◌}
use egg_project.Kv.{KvStore, KvLaws}
use egg_project.Store.Records.{ChainTip, encode_tip}
use egg_project.Store.Keys.{k_tip}
use egg_project.Store.Ops.{put, set_tip}
use egg_project.Chain.Defs.{ChainState, Run, assign_tip, self, returns}
use egg_project.Chain.Reorg.{better, replace_tip, maybe_set_tip, reorg_canonical}
use egg_project.Chain.Keeps.{Lawful, OnTips, OnTips-Lawful, Keeps, returns-Keeps, then-Keeps}
use egg_project.Chain.Still.{reorg_canonical-Keeps}
use egg_project.Chain.ForkChoice.{choose}
use egg_project.Chain.Fresh.{put_then}

module _ (kv : KvStore) (laws : KvLaws kv) (fuel : ℕ) where
  open kv use {State}

  abbrev Same : ChainState State → ChainState State → Type 0
  Same = OnTips (λ a b. b ≡ a)

  Same-Lawful : Lawful kv Same
  Same-Lawful = OnTips-Lawful kv (λ a b. b ≡ a) (λ t. refl) (λ a b c e f. f ∙ e)

  -- What follows the assignment of the tip leaves it.
  rest-Same :
      (old new : ChainTip) → Keeps kv Same (reorg_canonical kv fuel old new >> returns kv true)
  rest-Same old new =
      then-Keeps kv Same Same-Lawful _ _ (reorg_canonical-Keeps kv Same Same-Lawful fuel old new)
        (returns-Keeps kv Same Same-Lawful true)

  step :
      {A : Type 0} (new : ChainTip) (m : Run kv A) (st : ChainState State)
      → ((assign_tip kv new >> m) st).1.tip ≡ (m (record st { tip = new })).1.tip
  unfolding assign_tip ◌>>=◌ ◌>>◌
  step new m st = refl

  assigned :
      (old new : ChainTip) (st : ChainState State)
      → ((assign_tip kv new >> (reorg_canonical kv fuel old new >> returns kv true)) st).1.tip ≡ new
  assigned old new st =
      step new (reorg_canonical kv fuel old new >> returns kv true) st
      ∙ (rest-Same old new).keeps (record st { tip = new })

  replaced :
      (old new : ChainTip) (st : ChainState State) → (replace_tip kv fuel old new st).1.tip ≡ new
  unfolding replace_tip set_tip
  replaced old new st =
      ap (λ p. p.1.tip) (put_then kv laws k_tip (encode_tip new) _ st)
      ∙ assigned old new (record st { store = (put kv k_tip (encode_tip new) st.store).1 })

  abbrev chosen : Hash256 → Height → Bool → ChainTip → ChainTip
  chosen x h b old = if b then record { height = h; hash = x } else old

  cases :
      (x : Hash256) (h : Height) (st : ChainState State) (b : Bool)
      → (choose kv fuel x h st.tip b st).1.tip ≡ chosen x h b st.tip
  cases x h st true = replaced st.tip (record { height = h; hash = x }) st
  cases x h st false = unfold returns in refl

  -- On a store that keeps the laws, `maybe_set_tip` makes a better candidate the tip and leaves the tip alone otherwise, also when it
  -- then fails because the canonical chain cannot be rewritten.
  pub maybe_set_tip_lem :
      (x : Hash256) (h : Height) (st : ChainState State)
      → (maybe_set_tip kv fuel x h st).1.tip
        ≡ (if better x h st.tip then record { height = h; hash = x } else st.tip)
  unfolding maybe_set_tip self ◌>>=◌
  maybe_set_tip_lem x h st = cases x h st (better x h st.tip)
