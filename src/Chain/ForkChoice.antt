-- ===== src/Chain/ForkChoice.antt =====
-- The choice of the tip: `maybe_set_tip` and what `ingest_block` makes of it.
use egg_project.Prelude.{ℕ, ◌≡◌, refl, sym, ◌∙◌, ◌⊎◌, inl, inr, Bool, true, false, subst}
use egg_project.Prelude.Int.{ℤ}
use egg_project.Types.{Hash256, Height, BlockHeader, Block}
use egg_project.Exec.{◌>>=◌}
use egg_project.Kv.{KvStore}
use egg_project.Crypto.Hashing.{Blake3}
use egg_project.Mempool.Defs.{Mempool}
use egg_project.Store.Records.{ChainTip}
use egg_project.Store.Ops.{set_tip}
use egg_project.Chain.Defs.{ChainState, Run, writes, returns, self, assign_tip}
use egg_project.Chain.Reorg.{better, replace_tip, maybe_set_tip}
use egg_project.Chain.Ingest.{ingest_block, mine_and_append_one, ingest_header}
use egg_project.Chain.Ingested.{ingest_block-Keeps, mine_run-Keeps}
use egg_project.Chain.Keeps.{Lawful, OnTips, OnTips-Lawful, Keeps, returns-Keeps, then-Keeps}
use egg_project.Chain.Still.{reorg_canonical-Keeps, ingest_header-Keeps}
use egg_project.Chain.TipOrder.{Above, NoWorse, NoWorse-refl, NoWorse-trans, better-Above}

abbrev OrNew : ChainTip → ChainTip → ChainTip → Type 0
OrNew new a b = (b ≡ a) ⊎ (b ≡ new)

OrNew-trans : (new a b c : ChainTip) → OrNew new a b → OrNew new b c → OrNew new a c
OrNew-trans new a b c (inl e) (inl f) = inl (f ∙ e)
OrNew-trans new a b c (inr e) (inl f) = inr (f ∙ e)
OrNew-trans new a b c h (inr f) = inr f

module _ (kv : KvStore) where
  open kv use {State}

  NoWorse-Lawful : Lawful kv (OnTips NoWorse)
  NoWorse-Lawful = OnTips-Lawful kv NoWorse NoWorse-refl NoWorse-trans

  OrNew-Lawful : (new : ChainTip) → Lawful kv (OnTips (OrNew new))
  OrNew-Lawful new = OnTips-Lawful kv (OrNew new) (λ t. inl refl) (OrNew-trans new)

  set_tip-Keeps : (new : ChainTip) → Keeps kv (OnTips (OrNew new)) (writes kv (set_tip kv new))
  unfolding writes
  set_tip-Keeps new = record { keeps = λ st. inl refl }

  assign_tip-Keeps : (new : ChainTip) → Keeps kv (OnTips (OrNew new)) (assign_tip kv new)
  unfolding assign_tip
  assign_tip-Keeps new = record { keeps = λ st. inr refl }

  replace_tip-Keeps :
      (fuel : ℕ) (old new : ChainTip) → Keeps kv (OnTips (OrNew new)) (replace_tip kv fuel old new)
  unfolding replace_tip
  replace_tip-Keeps fuel old new =
      let R : ChainState State → ChainState State → Type 0 = OnTips (OrNew new) in
      let L : Lawful kv R = OrNew-Lawful new in
      then-Keeps kv R L _ _ (set_tip-Keeps new) (
        then-Keeps kv R L _ _ (assign_tip-Keeps new) (
          then-Keeps kv R L _ _ (reorg_canonical-Keeps kv R L fuel old new)
            (returns-Keeps kv R L true)))

  abbrev pub choose : ℕ → Hash256 → Height → ChainTip → Bool → Run kv Bool
  choose fuel x h t true = replace_tip kv fuel t (record { height = h; hash = x })
  choose fuel x h t false = returns kv false

  maybe_set_tip_cases :
      (fuel : ℕ) (x : Hash256) (h : Height) (st : ChainState State) (b : Bool)
      → better x h st.tip ≡ b
      → NoWorse st.tip (choose fuel x h st.tip b st).1.tip
  maybe_set_tip_cases fuel x h st true e =
      elim ((replace_tip-Keeps fuel st.tip (record { height = h; hash = x })).keeps st) [
        | inl q ↦ inl q
        | inr q ↦ inr (subst (λ t. Above t st.tip) (sym q) ((better-Above x h st.tip).0 e))
      ]
  maybe_set_tip_cases fuel x h st false e = unfold returns in inl refl

  maybe_set_tip-Keeps :
      (fuel : ℕ) (x : Hash256) (h : Height) → Keeps kv (OnTips NoWorse) (maybe_set_tip kv fuel x h)
  unfolding maybe_set_tip self ◌>>=◌
  maybe_set_tip-Keeps fuel x h = record {
    keeps = λ st. maybe_set_tip_cases fuel x h st (better x h st.tip) refl;
  }

  module _ (fuel : ℕ) (b3 : Blake3) where
    -- Whatever a block is and however the call ends, the tip that `ingest_block` leaves is the old
    -- one, a higher one, or one at the same height with a smaller hash.
    pub ingest_block_tip :
        (b : Block) (st : ChainState State) → NoWorse st.tip (ingest_block kv fuel b3 b st).1.tip
    ingest_block_tip b st =
        (ingest_block-Keeps kv (OnTips NoWorse) NoWorse-Lawful maybe_set_tip-Keeps fuel b3 b).keeps
          st

    -- Mining a block never leaves a worse tip, however it ends.
    pub mine_and_append_one_tip :
        (mp : Mempool) (t : ℤ) (bits : ℕ) (st : ChainState State)
        → NoWorse st.tip (mine_and_append_one kv fuel b3 mp t bits st).1.0.tip
    unfolding mine_and_append_one
    mine_and_append_one_tip mp t bits st =
        (mine_run-Keeps kv (OnTips NoWorse) NoWorse-Lawful maybe_set_tip-Keeps fuel b3 _).keeps st

  -- `ingest_header` never moves the tip, however it ends.
  pub ingest_header_tip :
      (b3 : Blake3) (h : BlockHeader) (st : ChainState State)
      → (ingest_header kv b3 h st).1.tip ≡ st.tip
  ingest_header_tip b3 h st =
      (ingest_header-Keeps kv (OnTips (λ a b. b ≡ a))
          (OnTips-Lawful kv (λ a b. b ≡ a) (λ t. refl) (λ a b c e f. f ∙ e)) b3 h).keeps
        st
