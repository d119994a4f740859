-- ===== src/Chain/Sound.antt =====
-- `validate_best_chain` ends within a number of steps given by the tip's height, and what it accepts
-- is a chain from the genesis block up to the tip.
use egg_project.Prelude.{
  ℕ, zero, suc, ◌+◌, ◌-◌, ◌^◌, ◌<◌, ◌≡◌, ◌≢◌, refl, sym, ap, ◌∙◌, subst, true, Option, some, ok,
  err, arith,
}
use egg_project.Prelude.Words.{saturating_add}
use egg_project.Types.{Hash256, Height, BlockHeader, Block, IsHeader}
use egg_project.Exec.{◌>>=◌}
use egg_project.Kv.{KvStore, KvLaws}
use egg_project.Crypto.Hashing.{Blake3, pow_valid}
use egg_project.Builder.{verify_block_merkle}
use egg_project.Store.Records.{BlockMeta}
use egg_project.Store.View.{ChainView, Implements}
use egg_project.Chain.Defs.{ChainState, out_of_fuel, fails, self, ensure_block_meta_from_header}
use egg_project.Chain.Validate.{validate_loop, validate_best_chain}
use egg_project.Chain.Abstract.{filled, meta_or, ensured}
use egg_project.Chain.Rounds.{
  Passed, stopped, at_genesis, goes_on, one-Round, filled_header, filled_block, filled_at,
}

one_less : (h p : ℕ) → h ≢ 0 → h < 2 ^ 64 - 1 → h ≡ saturating_add p 1 → p + 1 ≡ h
unfolding saturating_add
one_less h p nz b e = ground arith

-- The heights that a round may start from: one below the largest, so that adding 1 does not saturate.
abbrev MetaBelow : ChainView → Hash256 → ℕ → Type 0
MetaBelow v cur n = (m : BlockMeta) → v.block_meta cur ≡ some m → m.height < n

-- A chain of verified blocks with valid proof of work from the genesis block, of height 0, up to a
-- block, each one height above its parent.
pub data ValidChain (b3 : Blake3) (header : Hash256 → Option BlockHeader)
    (block : Hash256 → Option Block) (genesis : Hash256) : Hash256 → Height → Type 0 where
  from_genesis :
      (h : BlockHeader) (blk : Block)
      → header genesis ≡ some h
      → block genesis ≡ some blk
      → h.height ≡ 0
      → pow_valid b3 h ≡ true
      → verify_block_merkle b3 blk ≡ ok tt
      → ValidChain b3 header block genesis genesis 0
  on_parent :
      (id : Hash256) (n : Height) (h : BlockHeader) (blk : Block)
      → header id ≡ some h
      → block id ≡ some blk
      → h.height ≡ suc n
      → pow_valid b3 h ≡ true
      → verify_block_merkle b3 blk ≡ ok tt
      → ValidChain b3 header block genesis h.parent n
      → ValidChain b3 header block genesis id (suc n)

module _ (kv : KvStore) (laws : KvLaws kv) (b3 : Blake3) where
  open kv use {State}

  abbrev AllHeaders : ChainView → Type 0
  AllHeaders v = (id : Hash256) (h : BlockHeader) → v.header id ≡ some h → IsHeader h

  abbrev next_view : ChainView → BlockHeader → BlockHeader → ChainView
  next_view v h ph = filled h.parent ph (v.block_meta h.parent) v

  next_headers : (v : ChainView) (h ph : BlockHeader) → AllHeaders v → AllHeaders (next_view v h ph)
  next_headers v h ph w id hdr e =
      w id hdr (ap (λ f. f id) (sym (filled_header h.parent ph (v.block_meta h.parent) v)) ∙ e)

  next_below :
      (v : ChainView) (n : ℕ) (h ph : BlockHeader)
      → (meta_or ph (v.block_meta h.parent)).height < n
      → MetaBelow (next_view v h ph) h.parent n
  next_below v n h ph l m e =
      let at = filled_at h.parent ph (v.block_meta h.parent) v refl in
      let same : m ≡ meta_or ph (v.block_meta h.parent) = cc (e, at) in
      subst (λ x. x.height < n) (sym same) l

  Passed-height :
      (v : ChainView) (cur : Hash256) (h : BlockHeader) (n : ℕ)
      → Passed b3 v cur h
      → MetaBelow v cur n
      → h.height < n
  Passed-height v cur h n p l = subst (λ x. x < n) p.height_same (l p.m p.meta_at)

  parent_height : (n h p : ℕ) → h ≢ 0 → h < n → n < 2 ^ 64 → h ≡ saturating_add p 1 → p + 1 ≡ h
  parent_height n h p nz l b e = one_less h p nz (omega (arith, l, b)) e

  abbrev after : ChainState State → BlockHeader → BlockHeader → ChainState State
  after st h ph = (ensure_block_meta_from_header kv h.parent ph st).1

  implemented :
      (st : ChainState State) (v : ChainView) (h ph : BlockHeader)
      → Implements kv st.store v
      → IsHeader ph
      → Implements kv (after st h ph).store (next_view v h ph)
  implemented st v h ph i w = (ensured kv laws b3 st v i h.parent ph w).implements

  -- The height that the next round starts from.
  lower :
      (v : ChainView) (cur : Hash256) (h ph : BlockHeader) (n : ℕ)
      → Passed b3 v cur h
      → MetaBelow v cur n
      → n < 2 ^ 64
      → h.height ≢ 0
      → h.height ≡ saturating_add (meta_or ph (v.block_meta h.parent)).height 1
      → (meta_or ph (v.block_meta h.parent)).height + 1 ≡ h.height
  lower v cur h ph n p l b nz s =
      parent_height n h.height (meta_or ph (v.block_meta h.parent)).height nz
        (Passed-height v cur h n p l) b s

  -- The headers and the blocks of the next view are those of the view.
  same_chain :
      (v : ChainView) (h ph : BlockHeader) (g : Hash256) (id : Hash256) (n : Height)
      → ValidChain b3 (next_view v h ph).header (next_view v h ph).block g id n
      → ValidChain b3 v.header v.block g id n
  same_chain v h ph g id n c =
      subst (λ f. ValidChain b3 v.header f g id n)
        (filled_block h.parent ph (v.block_meta h.parent) v)
        (subst (λ f. ValidChain b3 f (next_view v h ph).block g id n)
          (filled_header h.parent ph (v.block_meta h.parent) v) c)

  -- What acceptance from a block on means.
  abbrev Chained : ChainState State → ChainView → Hash256 → Type 0
  Chained st v cur =
      (m : BlockMeta) × ((v.block_meta cur ≡ some m)
        × ValidChain b3 v.header v.block st.meta.genesis_id cur m.height)

  next_lower :
      (v : ChainView) (cur : Hash256) (h ph : BlockHeader) (k : ℕ)
      → Passed b3 v cur h
      → MetaBelow v cur (suc (suc k))
      → suc (suc k) < 2 ^ 64
      → h.height ≢ 0
      → h.height ≡ saturating_add (meta_or ph (v.block_meta h.parent)).height 1
      → MetaBelow (next_view v h ph) h.parent (suc k)
  next_lower v cur h ph k p l b nz s = next_below v (suc k) h ph (
      omega
        (arith, Passed-height v cur h (suc (suc k)) p l, lower v cur h ph (suc (suc k)) p l b nz s))

  next_lower_top :
      (v : ChainView) (cur : Hash256) (h ph : BlockHeader) (n : ℕ)
      → Passed b3 v cur h
      → MetaBelow v cur n
      → n < 2 ^ 64
      → h.height ≢ 0
      → h.height ≡ saturating_add (meta_or ph (v.block_meta h.parent)).height 1
      → MetaBelow (next_view v h ph) h.parent n
  next_lower_top v cur h ph n p l b nz s =
      next_below v n h ph
        (omega (arith, Passed-height v cur h n p l, lower v cur h ph n p l b nz s))

  bottom :
      (st : ChainState State) (v : ChainView) (cur : Hash256) (h : BlockHeader)
      (p : Passed b3 v cur h)
      → h.height ≡ 0
      → cur ≡ st.meta.genesis_id
      → ValidChain b3 v.header v.block st.meta.genesis_id cur p.m.height
  bottom st v cur h p z g =
      subst (λ n. ValidChain b3 v.header v.block st.meta.genesis_id cur n) (sym (p.height_same ∙ z))
        (subst (λ c. ValidChain b3 v.header v.block c cur 0) g
          (from_genesis h p.blk p.header_at p.block_at z p.pow p.verified))

  link :
      (st : ChainState State) (v : ChainView) (cur : Hash256) (h ph : BlockHeader) (n : ℕ)
      (p : Passed b3 v cur h)
      → MetaBelow v cur n
      → n < 2 ^ 64
      → h.height ≢ 0
      → h.height ≡ saturating_add (meta_or ph (v.block_meta h.parent)).height 1
      → (after st h ph).meta ≡ st.meta
      → Chained (after st h ph) (next_view v h ph) h.parent
      → ValidChain b3 v.header v.block st.meta.genesis_id cur p.m.height
  link st v cur h ph n p l b nz s g (m, (at, c)) =
      let same : m ≡ meta_or ph (v.block_meta h.parent) =
        cc (at, filled_at h.parent ph (v.block_meta h.parent) v refl) in
      let up : h.height ≡ suc m.height =
        sym (lower v cur h ph n p l b nz s)
        ∙ subst (λ x. x.height + 1 ≡ suc m.height) same (omega arith) in
      subst (ValidChain b3 v.header v.block st.meta.genesis_id cur) (sym (p.height_same ∙ up)) (
        on_parent cur m.height h p.blk p.header_at p.block_at up p.pow p.verified (
          same_chain v h ph st.meta.genesis_id h.parent m.height (
            subst
              (λ x.
                ValidChain b3 (next_view v h ph).header (next_view v h ph).block x.genesis_id
                  h.parent m.height)
              g c)))

  enough_fuel :
      (n : ℕ) (st : ChainState State) (v : ChainView) (cur : Hash256)
      → Implements kv st.store v
      → AllHeaders v
      → MetaBelow v cur (suc n)
      → suc n < 2 ^ 64
      → (validate_loop kv b3 (suc n) cur st).0 ≢ err out_of_fuel
  enough_fuel zero st v cur i w l b q = elim (one-Round kv laws b3 st v i w 0 cur) [
    | stopped e ne r ↦ ne (cc (r, q))
    | at_genesis h p z g r ↦ cc (r, q)
    | goes_on h ph p f nz s r ↦ nz (omega (arith, Passed-height v cur h 1 p l))
  ]
  enough_fuel (suc k) st v cur i w l b q = elim (one-Round kv laws b3 st v i w (suc k) cur) [
    | stopped e ne r ↦ ne (cc (r, q))
    | at_genesis h p z g r ↦ cc (r, q)
    | goes_on h ph p f nz s r ↦
        enough_fuel k (after st h ph) (next_view v h ph) h.parent
          (implemented st v h ph i (w h.parent ph f)) (next_headers v h ph w)
          (next_lower v cur h ph k p l b nz s) (omega (arith, b)) (sym r ∙ q)
  ]

  sound :
      (n : ℕ) (st : ChainState State) (v : ChainView) (cur : Hash256) (top : ℕ)
      → Implements kv st.store v
      → AllHeaders v
      → MetaBelow v cur top
      → top < 2 ^ 64
      → (validate_loop kv b3 n cur st).0 ≡ ok tt
      → Chained st v cur
  sound zero st v cur top i w l b q = absurd (unfold validate_loop fails in cc q)
  sound (suc n) st v cur top i w l b q = elim (one-Round kv laws b3 st v i w n cur) [
    | stopped e ne r ↦ absurd (cc (r, q))
    | at_genesis h p z g r ↦ (p.m, (p.meta_at, bottom st v cur h p z g))
    | goes_on h ph p f nz s r ↦ (
      p.m,
      (
        p.meta_at,
        link st v cur h ph top p l b nz s
            (ensured kv laws b3 st v i h.parent ph (w h.parent ph f)).meta_same
            (sound n (after st h ph) (next_view v h ph) h.parent top
              (implemented st v h ph i (w h.parent ph f)) (next_headers v h ph w)
              (next_lower_top v cur h ph top p l b nz s) b (sym r ∙ q)),
      ),
    )
  ]

  -- `validate_best_chain` comes to an end: on a store that keeps the laws and implements a view with
  -- headers of the Rust type, with more steps than the height that the meta of the tip has, it never
  -- runs out of fuel, if the number of steps is a `u64`.
  pub validate_best_chain_ends :
      (n : ℕ) (st : ChainState State) (v : ChainView)
      → Implements kv st.store v
      → AllHeaders v
      → MetaBelow v st.tip.hash (suc n)
      → suc n < 2 ^ 64
      → (validate_best_chain kv b3 (suc n) st).0 ≢ err out_of_fuel
  unfolding validate_best_chain ◌>>=◌ self
  validate_best_chain_ends n st v i w l b = enough_fuel n st v st.tip.hash i w l b

  -- On a store that keeps the laws and implements a view with headers of the Rust type and a meta of
  -- the tip below the largest height, what `validate_best_chain` accepts is a chain: from the genesis block of height 0, each block one
  -- height above its parent, with valid proof of work and a verified body, up to the tip, whose meta
  -- has the height of the chain.
  pub validate_best_chain_sound :
      (fuel : ℕ) (st : ChainState State) (v : ChainView)
      → Implements kv st.store v
      → AllHeaders v
      → MetaBelow v st.tip.hash (2 ^ 64 - 1)
      → (validate_best_chain kv b3 fuel st).0 ≡ ok tt
      → Chained st v st.tip.hash
  unfolding validate_best_chain ◌>>=◌ self
  validate_best_chain_sound fuel st v i w l q =
      sound fuel st v st.tip.hash (2 ^ 64 - 1) i w l (omega arith) q
