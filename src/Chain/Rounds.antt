-- ===== src/Chain/Rounds.antt =====
-- One round of the loop of `validate_best_chain`: how it may end and how it goes on.
use egg_project.Prelude.{
  ℕ, zero, suc, ◌≡◌, ◌≢◌, refl, ap, ◌∙◌, subst, Bool, true, false, Option, none, some, Result, ok,
  err, and_then, bytes_eq, bytes_eq_refl, bytes_eq_iff, ◌==◌, ==_iff, Bool-cases, Option-cases,
  Result-cases, ◌⊎◌, inl, inr, arith,
}
use egg_project.Prelude.Words.{saturating_add}
use egg_project.Types.{Hash256, BlockHeader, Block, IsHeader}
use egg_project.Exec.{continue, ◌>>=◌, ◌>>◌}
use egg_project.Kv.{KvStore, KvLaws}
use egg_project.Crypto.Hashing.{Blake3, pow_valid}
use egg_project.Builder.{verify_block_merkle}
use egg_project.Store.Records.{BlockMeta}
use egg_project.Store.View.{ChainView, Implements}
use egg_project.Chain.Defs.{
  ChainStateError, ChainState, Run, missing_header, missing_block, missing_block_meta,
  genesis_id_mismatch, height_not_parent_plus_one, out_of_fuel, branch, fails, returns, self,
  ensure_block_meta_from_header,
}
use egg_project.Chain.Validate.{check_genesis, check_parent, validate_loop}
use egg_project.Chain.Abstract.{
  view_check, check_fields, or_fail, filled, meta_or, step_ok, check_block_view, check_parent_found,
  check_parent_missing,
}

-- What the checks of one block establish.
pub record Passed (b3 : Blake3) (v : ChainView) (cur : Hash256) (h : BlockHeader) : Type 0 where
  pub blk : Block
  pub m : BlockMeta
  pub header_at : v.header cur ≡ some h
  pub block_at : v.block cur ≡ some blk
  pub meta_at : v.block_meta cur ≡ some m
  pub parent_same : m.parent ≡ h.parent
  pub height_same : m.height ≡ h.height
  pub pow : pow_valid b3 h ≡ true
  pub verified : verify_block_merkle b3 blk ≡ ok tt

fields_passed :
    (b3 : Blake3) (cur : Hash256) (h : BlockHeader) (blk : Block) (m : BlockMeta)
    → check_fields b3 cur h blk m ≡ ok tt
    → (bytes_eq m.parent h.parent ≡ true)
      × ((m.height ≡ h.height) × ((pow_valid b3 h ≡ true) × (verify_block_merkle b3 blk ≡ ok tt)))
fields_passed b3 cur h blk m e = ground arith

zero_or_suc : (n : ℕ) → (n ≡ 0) ⊎ ((k : ℕ) × (n ≡ suc k))
zero_or_suc zero = inl refl
zero_or_suc (suc k) = inr (k, refl)

and_then_ok :
    {A B : Type 0} (r : Result ChainStateError A) (f : A → Result ChainStateError B) (b : B)
    → and_then r f ≡ ok b
    → (a : A) × ((r ≡ ok a) × (f a ≡ ok b))
and_then_ok (ok a) f b e = (a, (refl, e))
and_then_ok (err x) f b e = absurd (cc e)

or_fail_ok :
    {A : Type 0} (e : ChainStateError) (o : Option A) (a : A) → or_fail e o ≡ ok a → o ≡ some a
or_fail_ok e none a h = absurd (cc h)
or_fail_ok e (some b) a h = cc h

view_check-Passed :
    (b3 : Blake3) (v : ChainView) (cur : Hash256) (h : BlockHeader)
    → view_check b3 v cur ≡ ok h
    → Passed b3 v cur h
view_check-Passed b3 v cur h e =
    let (h', (at_h, e1)) = and_then_ok _ _ h e in
    let (blk, (at_b, e2)) = and_then_ok _ _ h e1 in
    let (m, (at_m, e3)) = and_then_ok _ _ h e2 in
    let (u, (passed, e4)) = and_then_ok _ _ h e3 in
    let same : h' ≡ h = cc e4 in
    let (p, (ht, (pw, vf))) =
      fields_passed b3 cur h blk m (subst (λ x. check_fields b3 cur x blk m ≡ ok tt) same passed) in
    record {
      blk = blk;
      m = m;
      header_at = or_fail_ok (missing_header cur) (v.header cur) h (at_h ∙ ap ok same);
      block_at = or_fail_ok (missing_block cur) (v.block cur) blk at_b;
      meta_at = or_fail_ok (missing_block_meta cur) (v.block_meta cur) m at_m;
      parent_same = (bytes_eq_iff m.parent h.parent).0 p;
      height_same = ht;
      pow = pw;
      verified = vf;
    }

check_failed : (b3 : Blake3) (v : ChainView) (cur : Hash256) → view_check b3 v cur ≢ err out_of_fuel
check_failed b3 v cur e = ground arith

-- A view whose block metas alone may have grown.
pub filled_header :
    (id : Hash256) (h : BlockHeader) (o : Option BlockMeta) (v : ChainView)
    → (filled id h o v).header ≡ v.header
filled_header id h none v = refl
filled_header id h (some m) v = refl

pub filled_block :
    (id : Hash256) (h : BlockHeader) (o : Option BlockMeta) (v : ChainView)
    → (filled id h o v).block ≡ v.block
filled_block id h none v = refl
filled_block id h (some m) v = refl

pub filled_at :
    (id : Hash256) (h : BlockHeader) (o : Option BlockMeta) (v : ChainView)
    → v.block_meta id ≡ o
    → (filled id h o v).block_meta id ≡ some (meta_or h o)
filled_at id h none v e = rw (bytes_eq_refl id)
filled_at id h (some m) v e = e

module _ (kv : KvStore) (laws : KvLaws kv) (b3 : Blake3) where
  open kv use {State}

  -- The state behind the check of the parent.
  abbrev pub after_parent : ChainState State → BlockHeader → BlockHeader → ChainState State
  after_parent st h ph = (ensure_block_meta_from_header kv h.parent ph st).1

  -- How one round of the loop goes on.
  pub data Round (st : ChainState State) (v : ChainView) (n : ℕ) (cur : Hash256) : Type 0 where
    stopped :
        (e : ChainStateError)
        → e ≢ out_of_fuel
        → (validate_loop kv b3 (suc n) cur st).0 ≡ err e
        → Round st v n cur
    at_genesis :
        (h : BlockHeader)
        → Passed b3 v cur h
        → h.height ≡ 0
        → cur ≡ st.meta.genesis_id
        → (validate_loop kv b3 (suc n) cur st).0 ≡ ok tt
        → Round st v n cur
    goes_on :
        (h ph : BlockHeader)
        → Passed b3 v cur h
        → v.header h.parent ≡ some ph
        → h.height ≢ 0
        → h.height ≡ saturating_add (meta_or ph (v.block_meta h.parent)).height 1
        → (validate_loop kv b3 (suc n) cur st).0
          ≡ (validate_loop kv b3 n h.parent (after_parent st h ph)).0
        → Round st v n cur

  module _ (st : ChainState State) (v : ChainView) (i : Implements kv st.store v)
      (w : (id : Hash256) (h : BlockHeader) → v.header id ≡ some h → IsHeader h) (n : ℕ)
      (cur : Hash256) where
    abbrev on_up : BlockHeader → Run kv (Unit {0})
    on_up h = check_parent kv b3 h >> validate_loop kv b3 n h.parent

    pub checked :
        (h : BlockHeader)
        → view_check b3 v cur ≡ ok h
        → validate_loop kv b3 (suc n) cur st
          ≡ branch kv (h.height == 0) (check_genesis kv b3 cur) (on_up h) st
    unfolding validate_loop ◌>>=◌
    checked h e = rw (check_block_view kv laws b3 st v i cur, e)

    taken : (b : Bool) (m o : Run kv (Unit {0})) → b ≡ true → branch kv b m o st ≡ m st
    unfolding branch
    taken b m o e = rw e

    not_taken : (b : Bool) (m o : Run kv (Unit {0})) → b ≡ false → branch kv b m o st ≡ o st
    unfolding branch
    not_taken b m o e = rw e

    pub at_bottom :
        (h : BlockHeader)
        → view_check b3 v cur ≡ ok h
        → h.height ≡ 0
        → validate_loop kv b3 (suc n) cur st ≡ check_genesis kv b3 cur st
    at_bottom h e z = checked h e ∙ taken (h.height == 0) _ _ ((==_iff h.height 0).1 z)

    further_up :
        (h : BlockHeader) (k : ℕ)
        → view_check b3 v cur ≡ ok h
        → h.height ≡ suc k
        → validate_loop kv b3 (suc n) cur st ≡ on_up h st
    further_up h k e z = checked h e ∙ not_taken (h.height == 0) _ _ (ground arith)

    genesis-Round : (h : BlockHeader) → view_check b3 v cur ≡ ok h → h.height ≡ 0 → Round st v n cur
    genesis-Round h e z = elim (Bool-cases (bytes_eq cur st.meta.genesis_id)) [
      | inl g ↦
          at_genesis h (view_check-Passed b3 v cur h e) z
            ((bytes_eq_iff cur st.meta.genesis_id).0 g)
            (ap (λ x. x.0) (at_bottom h e z) ∙ accepted g)
      | inr g ↦
          stopped (genesis_id_mismatch st.meta.genesis_id cur) (λ q. cc q)
            (ap (λ x. x.0) (at_bottom h e z) ∙ refused g)
    ]
      where
        accepted : bytes_eq cur st.meta.genesis_id ≡ true → (check_genesis kv b3 cur st).0 ≡ ok tt
        accepted g = unfold check_genesis ◌>>=◌ self branch returns in rw g

        refused :
            bytes_eq cur st.meta.genesis_id ≡ false
            → (check_genesis kv b3 cur st).0 ≡ err (genesis_id_mismatch st.meta.genesis_id cur)
        refused g = unfold check_genesis ◌>>=◌ self branch fails in rw g

    step_cases :
        (h : BlockHeader) (pm : BlockMeta)
        → ((step_ok b3 h pm ≡ ok tt) × (h.height ≡ saturating_add pm.height 1))
          ⊎ (step_ok b3 h pm ≡ err (height_not_parent_plus_one pm.height h.height))
    step_cases h pm = elim (Bool-cases (h.height == saturating_add pm.height 1)) [
      | inl g ↦ inl (rw g, (==_iff h.height (saturating_add pm.height 1)).0 g)
      | inr g ↦ inr (rw g)
    ]

    abbrev after_step :
        BlockHeader
        → BlockHeader
        → Result ChainStateError (Unit {0})
        → Result ChainStateError (Unit {0})
    after_step h ph r = (continue r (λ _. validate_loop kv b3 n h.parent) (after_parent st h ph)).0

    on_up_found :
        (h ph : BlockHeader)
        → v.header h.parent ≡ some ph
        → (on_up h st).0 ≡ after_step h ph (step_ok b3 h (meta_or ph (v.block_meta h.parent)))
    unfolding ◌>>=◌ ◌>>◌
    on_up_found h ph f = rw (check_parent_found kv laws b3 st v i h ph f (w h.parent ph f))

    on_up_missing :
        (h : BlockHeader)
        → v.header h.parent ≡ none
        → (on_up h st).0 ≡ err (missing_header h.parent)
    unfolding ◌>>=◌ ◌>>◌
    on_up_missing h f = rw (check_parent_missing kv laws b3 st v i h f)

    -- The round up to the check of the heights.
    parent_found :
        (h ph : BlockHeader) (k : ℕ)
        → view_check b3 v cur ≡ ok h
        → h.height ≡ suc k
        → v.header h.parent ≡ some ph
        → (validate_loop kv b3 (suc n) cur st).0
          ≡ after_step h ph (step_ok b3 h (meta_or ph (v.block_meta h.parent)))
    parent_found h ph k e z f = ap (λ x. x.0) (further_up h k e z) ∙ on_up_found h ph f

    parent-Round :
        (h : BlockHeader) (k : ℕ) → view_check b3 v cur ≡ ok h → h.height ≡ suc k → Round st v n cur
    parent-Round h k e z = elim (Option-cases (v.header h.parent)) [
      | inl f ↦
          stopped (missing_header h.parent) (λ q. cc q)
            (ap (λ x. x.0) (further_up h k e z) ∙ on_up_missing h f)
      | inr (ph, f) ↦ elim (step_cases h (pm ph)) [
        | inl g ↦
            goes_on h ph (view_check-Passed b3 v cur h e) f (λ q. cc (q, z)) g.1
              (parent_found h ph k e z f ∙ ap (after_step h ph) g.0)
        | inr g ↦
            stopped (height_not_parent_plus_one (pm ph).height h.height) (λ q. cc q)
              (parent_found h ph k e z f ∙ ap (after_step h ph) g)
      ]
    ]
      where
        pm : BlockHeader → BlockMeta
        pm ph = meta_or ph (v.block_meta h.parent)

    pub one-Round : Round st v n cur
    one-Round = elim (Result-cases (view_check b3 v cur)) [
      | inl (h, e) ↦ elim (zero_or_suc h.height) [
        | inl z ↦ genesis-Round h e z
        | inr (k, z) ↦ parent-Round h k e z
      ]
      | inr (x, e) ↦
          stopped x (λ q. check_failed b3 v cur (e ∙ ap err q))
            (unfold validate_loop ◌>>=◌ in rw (check_block_view kv laws b3 st v i cur, e))
    ]
