-- ===== src/Chain/Abstract.antt =====
-- The checks of `validate_best_chain` on the maps that the store implements.
use egg_project.Prelude.{
  ◌≡◌, refl, ◌∙◌, Bool, true, false, not, ◌||◌, Option, none, some, Result, ok, err, map_err,
  and_then, bytes_eq, ◌==◌, if◌then◌else◌, Bool-cases, Option-cases, inl, inr,
}
use egg_project.Prelude.Words.{saturating_add}
use egg_project.Types.{Hash256, BlockHeader, Block, IsHeader}
use egg_project.Exec.{continue, ◌>>=◌, ◌>>◌}
use egg_project.Kv.{KvStore, KvLaws}
use egg_project.Crypto.Hashing.{Blake3, pow_valid}
use egg_project.Builder.{verify_block_merkle}
use egg_project.Store.Records.{BlockMeta, encode_block_meta}
use egg_project.Store.Ops.{put_block_meta, get_block}
use egg_project.Store.Keys.{k_block_meta}
use egg_project.Store.View.{ChainView, Implements, update}
use egg_project.Store.Frames.{put_done}
use egg_project.Store.Refines.{put_block_meta-Implements}
use egg_project.Chain.Defs.{
  ChainStateError, ChainState, Run, missing_header, missing_block, missing_block_meta, invalid_pow,
  block_build, height_not_parent_plus_one, meta_of, asks, writes, given, given_some, branch, fails,
  returns, meta_or_put, must_header, must_block, must_block_meta, ensure_block_meta_from_header,
}
use egg_project.Chain.Validate.{check_block, check_parent}

-- A read that must find something, with the error of the method that reads.
abbrev pub or_fail : {A : Type 0} → ChainStateError → Option A → Result ChainStateError A
or_fail e none = err e
or_fail e (some a) = ok a

-- The view when the meta of a header has been filled in, and that meta.
abbrev pub filled : Hash256 → BlockHeader → Option BlockMeta → ChainView → ChainView
filled id h (some m) v = v
filled id h none v = record v { block_meta = update v.block_meta id (some (meta_of h)) }

abbrev pub meta_or : BlockHeader → Option BlockMeta → BlockMeta
meta_or h (some m) = m
meta_or h none = meta_of h

module _ (b3 : Blake3) where
  abbrev pub check_fields :
      Hash256 → BlockHeader → Block → BlockMeta → Result ChainStateError (Unit {0})
  check_fields cur h blk m =
      if not (bytes_eq m.parent h.parent) || not (m.height == h.height)
      then err (missing_block_meta cur)
      else if not (pow_valid b3 h)
      then err invalid_pow
      else map_err block_build (verify_block_merkle b3 blk)

  abbrev pub view_check : ChainView → Hash256 → Result ChainStateError BlockHeader
  view_check v cur = and_then (or_fail (missing_header cur) (v.header cur)) λ h.
      and_then (or_fail (missing_block cur) (v.block cur)) λ blk.
        and_then (or_fail (missing_block_meta cur) (v.block_meta cur))
          λ m. and_then (check_fields cur h blk m) λ _. ok h

  abbrev pub step_ok : BlockHeader → BlockMeta → Result ChainStateError (Unit {0})
  step_ok h pm =
      if not (h.height == saturating_add pm.height 1)
      then err (height_not_parent_plus_one pm.height h.height)
      else ok tt

module _ (kv : KvStore) (laws : KvLaws kv) (b3 : Blake3) (st : ChainState kv.State) (v : ChainView)
    (i : Implements kv st.store v) where
  must_header_view :
      (id : Hash256) → must_header kv id st ≡ (or_fail (missing_header id) (v.header id), st)
  unfolding must_header asks branch fails ◌>>=◌
  must_header_view id = elim (Option-cases (v.header id)) [
    | inl e ↦ rw (i.has_header_at id, e)
    | inr (h, e) ↦ rw (i.has_header_at id, e, i.header_at id, e)
  ]

  must_block_view :
      (id : Hash256) → must_block kv id st ≡ (or_fail (missing_block id) (v.block id), st)
  unfolding must_block asks branch fails ◌>>=◌
  must_block_view id = elim (Option-cases (v.block id)) [
    | inl e ↦ rw (i.has_block_at id, e)
    | inr (b, e) ↦ rw (i.has_block_at id, e, i.block_at id, e)
  ]

  must_block_meta_view :
      (id : Hash256)
      → must_block_meta kv id st ≡ (or_fail (missing_block_meta id) (v.block_meta id), st)
  unfolding must_block_meta asks given_some ◌>>=◌
  must_block_meta_view id = elim (Option-cases (v.block_meta id)) [
    | inl e ↦ rw (i.block_meta_at id, e)
    | inr (b, e) ↦ rw (i.block_meta_at id, e)
  ]

  -- The meta comes back, the view is filled, and nothing but the store has changed.
  pub record Ensured (id : Hash256) (h : BlockHeader) : Type 0 where
    pub result : (ensure_block_meta_from_header kv id h st).0 ≡ ok (meta_or h (v.block_meta id))
    pub implements :
        Implements kv
          (ensure_block_meta_from_header kv id h st).1.store
          (filled id h (v.block_meta id) v)
    pub meta_same : (ensure_block_meta_from_header kv id h st).1.meta ≡ st.meta

  after_put : (id : Hash256) (h : BlockHeader) → ChainState kv.State
  after_put id h = record st { store = (put_block_meta kv id (meta_of h) st.store).1 }

  put_run :
      (id : Hash256) (h : BlockHeader)
      → (writes kv (put_block_meta kv id (meta_of h)) >> returns kv (meta_of h)) st
        ≡ (ok (meta_of h), after_put id h)
  unfolding ◌>>=◌ ◌>>◌ writes returns put_block_meta after_put
  put_run id h = rw (put_done kv laws (k_block_meta id) (encode_block_meta (meta_of h)) st.store)

  fill_run :
      (id : Hash256) (h : BlockHeader)
      → v.block_meta id ≡ none
      → ensure_block_meta_from_header kv id h st ≡ (ok (meta_of h), after_put id h)
  unfolding ensure_block_meta_from_header asks meta_or_put ◌>>=◌
  fill_run id h e = rw (i.block_meta_at id, e) (put_run id h)

  found_run :
      (id : Hash256) (h : BlockHeader) (m : BlockMeta)
      → v.block_meta id ≡ some m
      → ensure_block_meta_from_header kv id h st ≡ (ok m, st)
  unfolding ensure_block_meta_from_header asks meta_or_put ◌>>=◌ returns
  found_run id h m e = rw (i.block_meta_at id, e)

  fill_implements :
      (id : Hash256) (h : BlockHeader)
      → IsHeader h
      → Implements kv (after_put id h).store (filled id h none v)
  unfolding after_put
  fill_implements id h ok_h =
      put_block_meta-Implements kv laws st.store v i id (meta_of h) ok_h.parent_ok ok_h.height_ok

  after_put_meta : (id : Hash256) (h : BlockHeader) → (after_put id h).meta ≡ st.meta
  unfolding after_put
  after_put_meta id h = refl

  pub ensured : (id : Hash256) (h : BlockHeader) → IsHeader h → Ensured id h
  ensured id h ok_h = elim (Option-cases (v.block_meta id)) [
    | inl e ↦ record {
      result = rw (fill_run id h e, e);
      implements = rw (fill_run id h e, e) (fill_implements id h ok_h);
      meta_same = rw (fill_run id h e) (after_put_meta id h);
    }
    | inr (m, e) ↦ record {
      result = rw (found_run id h m e, e);
      implements = rw (found_run id h m e, e) i;
      meta_same = rw (found_run id h m e);
    }
  ]

  given_then :
      {A B : Type 0} (r : Result ChainStateError A) (b : B)
      → (given kv r >> returns kv b) st ≡ (and_then r (λ _. ok b), st)
  unfolding given returns ◌>>=◌ ◌>>◌
  given_then (ok a) b = refl
  given_then (err e) b = refl

  check_tail :
      (b c : Bool) (x y : ChainStateError) (r : Result ChainStateError (Unit {0})) (h : BlockHeader)
      (m : Run kv BlockHeader)
      → m st ≡ (and_then r (λ _. ok h), st)
      → branch kv b (fails kv x) (branch kv c (fails kv y) m) st
        ≡ (and_then (if b then err x else if c then err y else r) (λ _. ok h), st)
  unfolding branch fails
  check_tail true c x y r h m e = refl
  check_tail false true x y r h m e = refl
  check_tail false false x y r h m e = e

  block_verified :
      (cur : Hash256) (h : BlockHeader) (blk : Block)
      → v.block cur ≡ some blk
      → (asks kv (get_block kv cur) >>= λ b.
            given kv (map_err block_build (verify_block_merkle b3 b)) >> returns kv h)
          st
        ≡ (and_then (map_err block_build (verify_block_merkle b3 blk)) (λ _. ok h), st)
  unfolding asks ◌>>=◌
  block_verified cur h blk e =
      rw (i.block_at cur, e) (given_then (map_err block_build (verify_block_merkle b3 blk)) h)

  pub check_block_view : (cur : Hash256) → check_block kv b3 cur st ≡ (view_check b3 v cur, st)
  unfolding check_block ◌>>=◌ ◌>>◌
  check_block_view cur = elim (Option-cases (v.header cur)) [
    | inl e ↦ rw (must_header_view cur, e)
    | inr (h, e) ↦ elim (Option-cases (v.block cur)) [
      | inl f ↦ rw (must_header_view cur, e, must_block_view cur, f)
      | inr (blk, f) ↦ elim (Option-cases (v.block_meta cur)) [
        | inl g ↦ rw (must_header_view cur, e, must_block_view cur, f, must_block_meta_view cur, g)
        | inr (m, g) ↦
            rw (must_header_view cur, e, must_block_view cur, f, must_block_meta_view cur, g)
              (check_tail _ _ (missing_block_meta cur) invalid_pow
                (map_err block_build (verify_block_merkle b3 blk)) h _ (block_verified cur h blk f))
      ]
    ]
  ]

  -- The parent's header is found, its meta is there or filled in, and the height is one more.
  abbrev pub view_parent : BlockHeader → Result ChainStateError (Unit {0})
  view_parent h =
      and_then (or_fail (missing_header h.parent) (v.header h.parent))
        λ ph. step_ok b3 h (meta_or ph (v.block_meta h.parent))

  height_checked :
      (h : BlockHeader) (pm : BlockMeta) (t : ChainState kv.State)
      → (branch kv
            (not (h.height == saturating_add pm.height 1))
            (fails kv (height_not_parent_plus_one pm.height h.height))
            (returns kv tt))
          t
        ≡ (step_ok b3 h pm, t)
  unfolding branch fails returns
  height_checked h pm t = elim (Bool-cases (h.height == saturating_add pm.height 1)) [
    | inl e ↦ rw e
    | inr e ↦ rw e
  ]

  continued :
      {A B : Type 0} (p : Result ChainStateError A × ChainState kv.State) (a : A) (f : A → Run kv B)
      → p.0 ≡ ok a
      → continue p.0 f p.1 ≡ f a p.1
  continued p a f e = rw e

  pub check_parent_found :
      (h ph : BlockHeader)
      → v.header h.parent ≡ some ph
      → IsHeader ph
      → check_parent kv b3 h st ≡ (
        step_ok b3 h (meta_or ph (v.block_meta h.parent)),
        (ensure_block_meta_from_header kv h.parent ph st).1,
      )
  unfolding check_parent ◌>>=◌
  check_parent_found h ph e w =
      rw (must_header_view h.parent, e)
        (continued _ (meta_or ph (v.block_meta h.parent)) _ (ensured h.parent ph w).result
          ∙ height_checked h (meta_or ph (v.block_meta h.parent)) _)

  pub check_parent_missing :
      (h : BlockHeader)
      → v.header h.parent ≡ none
      → check_parent kv b3 h st ≡ (err (missing_header h.parent), st)
  unfolding check_parent ◌>>=◌
  check_parent_missing h e = rw (must_header_view h.parent, e)
