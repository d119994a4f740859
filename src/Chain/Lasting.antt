-- ===== src/Chain/Lasting.antt =====
-- The methods of the chain state and the records of the store: what is there before and after.
use egg_project.Prelude.{
  ℕ, ◌≡◌, refl, sym, ◌∙◌, subst, Bool, true, false, not, List, Result-cases, ok, inl, inr, bytes_eq,
  Bool-cases,
}
use egg_project.Bytes.{Bytes}
use egg_project.Prelude.Int.{ℤ}
use egg_project.Types.{Hash256, Height, BlockHeader, Block}
use egg_project.Exec.{Exec, ◌>>=◌, ◌>>◌}
use egg_project.Kv.{KvStore, KvLaws}
use egg_project.Crypto.Hashing.{Blake3}
use egg_project.Mempool.Defs.{Mempool}
use egg_project.Store.Records.{StoreError, ChainTip, encode_tip}
use egg_project.Store.Keys.{k_tip, k_children}
use egg_project.Store.Ops.{
  put, put_header, put_block, put_block_meta, add_child, push_child, set_canon_hash, set_tip,
  get_children, any_eq,
}
use egg_project.Store.Frames.{has_by_get, get_same, get_other}
use egg_project.Chain.Defs.{ChainState, Run, writes, assign_tip, returns, self}
use egg_project.Chain.Reorg.{better, replace_tip, reorg_canonical, maybe_set_tip}
use egg_project.Chain.Keeps.{
  Write, header_write, block_write, meta_write, child_write, canon_write, Lawful, Keeps,
  returns-Keeps, then-Keeps,
}
use egg_project.Chain.Still.{reorg_canonical-Keeps, ingest_header-Keeps}
use egg_project.Chain.ForkChoice.{choose}
use egg_project.Chain.Fresh.{put_then}
use egg_project.Chain.Ingest.{ingest_block, ingest_header, mine_and_append_one}
use egg_project.Chain.Ingested.{ingest_block-Keeps, mine_run-Keeps}

module _ (kv : KvStore) where
  open kv use {State}

  abbrev pub Grows : State → State → Type 0
  Grows s t = (k : Bytes) → kv.has s k ≡ ok true → kv.has t k ≡ ok true

  abbrev SameTip : State → State → Type 0
  SameTip s t = kv.get t k_tip ≡ kv.get s k_tip

  -- Writes of both kinds.
  abbrev Lasts : State → State → Type 0
  Lasts s t = Grows s t × SameTip s t

  -- No record is lost, and neither the meta nor the specification changes.
  abbrev pub Lasting : ChainState State → ChainState State → Type 0
  Lasting a b = Grows a.store b.store × (b.meta ≡ a.meta) × (b.spec ≡ a.spec)

  -- The store holds the tip.
  abbrev pub HasTip : ChainState State → Type 0
  HasTip st = kv.get st.store k_tip ≡ ok (encode_tip st.tip)

  abbrev TipLasts : ChainState State → ChainState State → Type 0
  TipLasts a b = HasTip a → HasTip b

module _ (kv : KvStore) (laws : KvLaws kv) where
  open kv use {State}

  put-Grows : (k v : Bytes) (s : State) → Grows kv s (put kv k v s).1
  unfolding put
  put-Grows k v s j h = elim (Bool-cases (bytes_eq k j)) [
    | inl e ↦ has_by_get kv laws (kv.put s k v).1 j ∙ rw (laws.get-put s k j v, e)
    | inr e ↦
        has_by_get kv laws (kv.put s k v).1 j
        ∙ rw (laws.get-put s k j v, e) (sym (has_by_get kv laws s j) ∙ h)
  ]

  put-SameTip : (k v : Bytes) (s : State) → bytes_eq k k_tip ≡ false → SameTip kv s (put kv k v s).1
  unfolding put
  put-SameTip k v s h = get_other kv laws s k k_tip v h

  put-Lasts : (k v : Bytes) (s : State) → bytes_eq k k_tip ≡ false → Lasts kv s (put kv k v s).1
  put-Lasts k v s h = (put-Grows k v s, put-SameTip k v s h)

  push_child-Lasts :
      (p c : Hash256) (cs : List Hash256) (s : State) → Lasts kv s (push_child kv p c cs s).1
  unfolding push_child bytes_eq
  push_child-Lasts p c cs s = elim (Bool-cases (not (any_eq c cs))) [
    | inl e ↦ rw e (put-Lasts (k_children p) _ s refl)
    | inr e ↦ rw e ((λ k h. h), refl)
  ]

  add_child-Lasts : (p c : Hash256) (s : State) → Lasts kv s (add_child kv p c s).1
  unfolding add_child
  add_child-Lasts p c s = elim (Result-cases (get_children kv p s)) [
    | inl (cs, q) ↦ rw (q, add_child) (push_child-Lasts p c cs s)
    | inr (e, q) ↦ rw (q, add_child) ((λ k h. h), refl)
  ]

  Write-Lasts :
      (m : Exec State StoreError (Unit {0})) → Write kv m → (s : State) → Lasts kv s (m s).1
  unfolding put_header put_block put_block_meta set_canon_hash bytes_eq
  Write-Lasts _ (header_write id h) s = put-Lasts _ _ s refl
  Write-Lasts _ (block_write id b) s = put-Lasts _ _ s refl
  Write-Lasts _ (meta_write id m) s = put-Lasts _ _ s refl
  Write-Lasts _ (child_write p c) s = add_child-Lasts p c s
  Write-Lasts _ (canon_write h x) s = put-Lasts _ _ s refl

  pub Lasting-Lawful : Lawful kv (Lasting kv)
  Lasting-Lawful = record {
    stays = λ st. ((λ k h. h), refl, refl);
    joins = λ a b c p q. ((λ k h. q.0 k (p.0 k h)), q.1 ∙ p.1, q.2 ∙ p.2);
    written = λ m w st. ((Write-Lasts m w st.store).0, refl, refl);
  }

  TipLasts-Lawful : Lawful kv (TipLasts kv)
  TipLasts-Lawful = record {
    stays = λ st h. h;
    joins = λ a b c p q h. q (p h);
    written = λ m w st h. (Write-Lasts m w st.store).1 ∙ h;
  }

  set_tip-Lasting : (new : ChainTip) → Keeps kv (Lasting kv) (writes kv (set_tip kv new))
  unfolding writes set_tip
  set_tip-Lasting new = record {
    keeps = λ st. (put-Grows k_tip (encode_tip new) st.store, refl, refl);
  }

  assign_tip-Lasting : (new : ChainTip) → Keeps kv (Lasting kv) (assign_tip kv new)
  unfolding assign_tip
  assign_tip-Lasting new = record { keeps = λ st. ((λ k h. h), refl, refl) }

  module _ (fuel : ℕ) where
    replace_tip-Lasting : (old new : ChainTip) → Keeps kv (Lasting kv) (replace_tip kv fuel old new)
    unfolding replace_tip
    replace_tip-Lasting old new =
        then-Keeps kv (Lasting kv) Lasting-Lawful _ _ (set_tip-Lasting new) (
          then-Keeps kv (Lasting kv) Lasting-Lawful _ _ (assign_tip-Lasting new) (
            then-Keeps kv (Lasting kv) Lasting-Lawful _ _
              (reorg_canonical-Keeps kv (Lasting kv) Lasting-Lawful fuel old new)
              (returns-Keeps kv (Lasting kv) Lasting-Lawful true)))

    -- Both writes of the tip come first, so the rest finds them alike.
    abbrev rest : ChainTip → ChainTip → Run kv Bool
    rest old new = reorg_canonical kv fuel old new >> returns kv true

    rest-TipLasts : (old new : ChainTip) → Keeps kv (TipLasts kv) (rest old new)
    rest-TipLasts old new =
        then-Keeps kv (TipLasts kv) TipLasts-Lawful _ _
          (reorg_canonical-Keeps kv (TipLasts kv) TipLasts-Lawful fuel old new)
          (returns-Keeps kv (TipLasts kv) TipLasts-Lawful true)

    assigned_has :
        (old new : ChainTip) (st : ChainState State)
        → kv.get st.store k_tip ≡ ok (encode_tip new)
        → HasTip kv ((assign_tip kv new >> rest old new) st).1
    unfolding assign_tip ◌>>◌ ◌>>=◌
    assigned_has old new st h = (rest-TipLasts old new).keeps (record st { tip = new }) h

    replaced_has :
        (old new : ChainTip) (st : ChainState State) → HasTip kv (replace_tip kv fuel old new st).1
    unfolding replace_tip set_tip
    replaced_has old new st =
        let s : ChainState State = record st {
          store = (put kv k_tip (encode_tip new) st.store).1;
        } in
        let same : kv.get s.store k_tip ≡ ok (encode_tip new) =
          unfold put in get_same kv laws st.store k_tip (encode_tip new) in
        subst (λ p. HasTip kv p.1)
          (sym (put_then kv laws k_tip (encode_tip new) (assign_tip kv new >> rest old new) st))
          (assigned_has old new s same)

    replace_tip-TipLasts :
        (old new : ChainTip) → Keeps kv (TipLasts kv) (replace_tip kv fuel old new)
    replace_tip-TipLasts old new = record { keeps = λ st h. replaced_has old new st }

    choose_keeps :
        (R : ChainState State → ChainState State → Type 0)
        → Lawful kv R
        → ((old new : ChainTip) → Keeps kv R (replace_tip kv fuel old new))
        → (x : Hash256) (h : Height) (st : ChainState State) (b : Bool)
        → R st (choose kv fuel x h st.tip b st).1
    choose_keeps R L replaced x h st true =
        (replaced st.tip (record { height = h; hash = x })).keeps st
    choose_keeps R L replaced x h st false = unfold returns in L.stays st

    by_choice :
        (R : ChainState State → ChainState State → Type 0)
        → Lawful kv R
        → ((old new : ChainTip) → Keeps kv R (replace_tip kv fuel old new))
        → (x : Hash256) (h : Height) → Keeps kv R (maybe_set_tip kv fuel x h)
    unfolding maybe_set_tip self ◌>>=◌
    by_choice R L replaced x h = record {
      keeps = λ st. choose_keeps R L replaced x h st (better x h st.tip);
    }

  pub moved-Lasting :
      (fuel : ℕ) (x : Hash256) (h : Height) → Keeps kv (Lasting kv) (maybe_set_tip kv fuel x h)
  moved-Lasting fuel = by_choice fuel (Lasting kv) Lasting-Lawful (replace_tip-Lasting fuel)

  moved-TipLasts :
      (fuel : ℕ) (x : Hash256) (h : Height) → Keeps kv (TipLasts kv) (maybe_set_tip kv fuel x h)
  moved-TipLasts fuel = by_choice fuel (TipLasts kv) TipLasts-Lawful (replace_tip-TipLasts fuel)

  pub ingest_header-Lasting :
      (b3 : Blake3) (h : BlockHeader) (st : ChainState State)
      → Lasting kv st (ingest_header kv b3 h st).1
  ingest_header-Lasting b3 h = (ingest_header-Keeps kv (Lasting kv) Lasting-Lawful b3 h).keeps

  module _ (fuel : ℕ) (b3 : Blake3) where
    -- On a store that keeps the laws, and however the call ends, `ingest_block` loses no record of
    -- the store, and changes neither the meta nor the specification.
    pub ingest_block-Lasting :
        (b : Block) (st : ChainState State) → Lasting kv st (ingest_block kv fuel b3 b st).1
    ingest_block-Lasting b =
        (ingest_block-Keeps kv (Lasting kv) Lasting-Lawful moved-Lasting fuel b3 b).keeps

    -- On a store that keeps the laws: where the store holds the tip that is in memory, it still does
    -- after `ingest_block`, `ingest_header` and `mine_and_append_one`, however they end.
    pub tip_stored :
        (b : Block) (h : BlockHeader) (mp : Mempool) (t : ℤ) (bits : ℕ) (st : ChainState State)
        → HasTip kv st
        → HasTip kv (ingest_block kv fuel b3 b st).1
          × HasTip kv (ingest_header kv b3 h st).1
          × HasTip kv (mine_and_append_one kv fuel b3 mp t bits st).1.0
    unfolding mine_and_append_one
    tip_stored b h mp t bits st has = (
      (ingest_block-Keeps kv (TipLasts kv) TipLasts-Lawful moved-TipLasts fuel b3 b).keeps st has,
      (ingest_header-Keeps kv (TipLasts kv) TipLasts-Lawful b3 h).keeps st has,
      (mine_run-Keeps kv (TipLasts kv) TipLasts-Lawful moved-TipLasts fuel b3 _).keeps st has,
    )
