-- ===== src/Store/Refines.antt =====
-- The chain store refines its seven maps: each write changes one map at one place, and no other.
use egg_project.Prelude.{
  ◌^◌, ◌<◌, ◌≡◌, refl, sym, ap, ◌∙◌, subst, true, false, some, [], append-nil, length, All, Result,
  ok, bytes_eq, bytes_eq_refl, bytes_eq_ne, Bool-cases, ◌==◌, ==_iff, ◌≢◌, inl, inr,
}
use egg_project.Bytes.{Bytes, to_be_bytes, from_be_bytes, from_be_bytes-to_be_bytes}
use egg_project.Types.{Hash256, Height, BlockHeader, Block, IsHash, IsU64, IsU32, IsHeader, IsBlock}
use egg_project.Canonical.Header.{
  encode_block_header, decode_block_header, decode_block_header-encode_block_header,
}
use egg_project.Canonical.Blocks.{encode_block, decode_block, decode_block-encode_block, FitsU32}
use egg_project.Kv.{KvStore, KvLaws}
use egg_project.Store.Records.{
  StoreError, ChainTip, ChainMeta, BlockMeta, encode_tip, decode_tip, encode_meta, decode_meta,
  encode_block_meta, decode_block_meta, encode_canon, decode_canon,
}
use egg_project.Store.RoundTrip.{
  decode_tip-encode_tip, decode_meta-encode_meta, decode_block_meta-encode_block_meta,
  decode_canon-encode_canon,
}
use egg_project.Store.Keys.{k_header, k_block, k_tip, k_meta, k_block_meta, k_canon}
use egg_project.Store.Ops.{
  get_optional, put_header, get_header, has_header, put_block, get_block, has_block, set_tip,
  get_tip, set_meta, get_meta, put_block_meta, get_block_meta, set_canon_hash, get_canon_hash,
}
use egg_project.Store.View.{ChainView, Implements, update, update_at}
use egg_project.Store.Frames.{get_same, has_by_get, get_optional_by_get}
use egg_project.Store.Kept

module _ (kv : KvStore) (laws : KvLaws kv) (s : kv.State) (v : ChainView)
    (i : Implements kv s v) where
  open kv use {State}

  found_header :
      (id : Hash256) (h : BlockHeader) (t : State)
      → IsHeader h
      → kv.get t (k_header id) ≡ ok (encode_block_header h)
      → (get_header kv id t ≡ ok h) × (has_header kv id t ≡ ok true)
  unfolding get_header has_header
  found_header id h t v e =
      let back : decode_block_header (encode_block_header h) ≡ ok h =
        subst (λ xs. decode_block_header xs ≡ ok h) (append-nil (encode_block_header h))
          (decode_block_header-encode_block_header h [] v) in
      (rw (e, back), rw (has_by_get kv laws t (k_header id), e))

  pub here : (k j b : Bytes) → bytes_eq k j ≡ true → kv.get (kv.put s k b).1 j ≡ ok b
  here k j b e = laws.get-put s k j b ∙ rw e

  -- On a key-value store that keeps the laws, `put_header` changes the header under its id and no
  -- other read, for a header of the Rust type.
  pub put_header-Implements :
      (id : Hash256) (h : BlockHeader)
      → IsHeader h
      → Implements kv (put_header kv id h s).1 (record v { header = update v.header id (some h) })
  unfolding put_header bytes_eq
  put_header-Implements id h ok_h =
      let k = k_header id in
      let b = encode_block_header h in
      record {
        header_at = λ j. elim (Bool-cases (bytes_eq id j)) [
          | inl e ↦ rw e (found_header j h _ ok_h (here k (k_header j) b e)).0
          | inr e ↦ rw e (Kept.header_kept kv laws s v i k b j e)
        ];
        has_header_at = λ j. elim (Bool-cases (bytes_eq id j)) [
          | inl e ↦ rw e (found_header j h _ ok_h (here k (k_header j) b e)).1
          | inr e ↦ rw e (Kept.has_header_kept kv laws s v i k b j e)
        ];
        block_at = λ j. Kept.block_kept kv laws s v i k b j refl;
        has_block_at = λ j. Kept.has_block_kept kv laws s v i k b j refl;
        tip_at = Kept.tip_kept kv laws s v i k b refl;
        meta_at = Kept.meta_kept kv laws s v i k b refl;
        block_meta_at = λ j. Kept.block_meta_kept kv laws s v i k b j refl;
        children_at = λ j. Kept.children_kept kv laws s v i k b j refl;
        canon_at = λ j u. Kept.canon_kept kv laws s v i k b j u refl;
      }

  found_block :
      (id : Hash256) (blk : Block) (t : State)
      → IsBlock blk
      → All FitsU32 blk.txs
      → length blk.txs < 2 ^ 32
      → kv.get t (k_block id) ≡ ok (encode_block blk)
      → (get_block kv id t ≡ ok blk) × (has_block kv id t ≡ ok true)
  unfolding get_block has_block
  found_block id blk t v f n e =
      let back : decode_block (encode_block blk) ≡ ok blk =
        subst (λ xs. decode_block xs ≡ ok blk) (append-nil (encode_block blk))
          (decode_block-encode_block blk [] v f n) in
      (rw (e, back), rw (has_by_get kv laws t (k_block id), e))

  found_optional :
      {A : Type 0} (k : Bytes) (dec : Bytes → Result StoreError A) (b : Bytes) (a : A) (t : State)
      → kv.get t k ≡ ok b
      → dec b ≡ ok a
      → get_optional kv k dec t ≡ ok (some a)
  found_optional k dec b a t e d = get_optional_by_get kv laws k dec t ∙ rw (e, d)

  -- On a key-value store that keeps the laws, `put_block` changes the block under its id and no
  -- other read, for a block of the Rust type with fewer than 2 ^ 32 transactions, each with an
  -- encoding shorter than 2 ^ 32 bytes.
  pub put_block-Implements :
      (id : Hash256) (blk : Block)
      → IsBlock blk
      → All FitsU32 blk.txs
      → length blk.txs < 2 ^ 32
      → Implements kv (put_block kv id blk s).1 (record v { block = update v.block id (some blk) })
  unfolding put_block bytes_eq
  put_block-Implements id blk w f n =
      let k = k_block id in
      let b = encode_block blk in
      record {
        header_at = λ j. Kept.header_kept kv laws s v i k b j refl;
        has_header_at = λ j. Kept.has_header_kept kv laws s v i k b j refl;
        block_at = λ j. elim (Bool-cases (bytes_eq id j)) [
          | inl e ↦ rw e ((found_block j blk _ w f n (here k (k_block j) b e)).0)
          | inr e ↦ rw e (Kept.block_kept kv laws s v i k b j e)
        ];
        has_block_at = λ j. elim (Bool-cases (bytes_eq id j)) [
          | inl e ↦ rw e ((found_block j blk _ w f n (here k (k_block j) b e)).1)
          | inr e ↦ rw e (Kept.has_block_kept kv laws s v i k b j e)
        ];
        tip_at = Kept.tip_kept kv laws s v i k b refl;
        meta_at = Kept.meta_kept kv laws s v i k b refl;
        block_meta_at = λ j. Kept.block_meta_kept kv laws s v i k b j refl;
        children_at = λ j. Kept.children_kept kv laws s v i k b j refl;
        canon_at = λ j u. Kept.canon_kept kv laws s v i k b j u refl;
      }

  -- On a key-value store that keeps the laws, `set_tip` changes the tip and no other read, for a tip
  -- of the Rust type.
  pub set_tip-Implements :
      (tip : ChainTip)
      → IsU64 tip.height
      → IsHash tip.hash
      → Implements kv (set_tip kv tip s).1 (record v { tip = some tip })
  unfolding set_tip get_tip bytes_eq
  set_tip-Implements tip u h =
      let k = k_tip in
      let b = encode_tip tip in
      record {
        header_at = λ j. Kept.header_kept kv laws s v i k b j refl;
        has_header_at = λ j. Kept.has_header_kept kv laws s v i k b j refl;
        block_at = λ j. Kept.block_kept kv laws s v i k b j refl;
        has_block_at = λ j. Kept.has_block_kept kv laws s v i k b j refl;
        tip_at =
            found_optional k_tip decode_tip b tip _ (get_same kv laws s k_tip b)
              (decode_tip-encode_tip tip u h);
        meta_at = Kept.meta_kept kv laws s v i k b refl;
        block_meta_at = λ j. Kept.block_meta_kept kv laws s v i k b j refl;
        children_at = λ j. Kept.children_kept kv laws s v i k b j refl;
        canon_at = λ j u. Kept.canon_kept kv laws s v i k b j u refl;
      }

  -- On a key-value store that keeps the laws, `set_meta` changes the chain meta and no other read,
  -- for a meta of the Rust type.
  pub set_meta-Implements :
      (meta : ChainMeta)
      → IsU32 meta.chain_id
      → IsHash meta.genesis_id
      → IsHash meta.chainspec_hash
      → Implements kv (set_meta kv meta s).1 (record v { meta = some meta })
  unfolding set_meta get_meta bytes_eq
  set_meta-Implements meta u g h =
      let k = k_meta in
      let b = encode_meta meta in
      record {
        header_at = λ j. Kept.header_kept kv laws s v i k b j refl;
        has_header_at = λ j. Kept.has_header_kept kv laws s v i k b j refl;
        block_at = λ j. Kept.block_kept kv laws s v i k b j refl;
        has_block_at = λ j. Kept.has_block_kept kv laws s v i k b j refl;
        tip_at = Kept.tip_kept kv laws s v i k b refl;
        meta_at =
            found_optional k_meta decode_meta b meta _ (get_same kv laws s k_meta b)
              (decode_meta-encode_meta meta u g h);
        block_meta_at = λ j. Kept.block_meta_kept kv laws s v i k b j refl;
        children_at = λ j. Kept.children_kept kv laws s v i k b j refl;
        canon_at = λ j u. Kept.canon_kept kv laws s v i k b j u refl;
      }

  -- On a key-value store that keeps the laws, `put_block_meta` changes the block meta under its id
  -- and no other read, for a meta of the Rust type.
  pub put_block_meta-Implements :
      (id : Hash256) (m : BlockMeta)
      → IsHash m.parent
      → IsU64 m.height
      → Implements kv
          (put_block_meta kv id m s).1
          (record v { block_meta = update v.block_meta id (some m) })
  unfolding put_block_meta get_block_meta bytes_eq
  put_block_meta-Implements id m p u =
      let k = k_block_meta id in
      let b = encode_block_meta m in
      record {
        header_at = λ j. Kept.header_kept kv laws s v i k b j refl;
        has_header_at = λ j. Kept.has_header_kept kv laws s v i k b j refl;
        block_at = λ j. Kept.block_kept kv laws s v i k b j refl;
        has_block_at = λ j. Kept.has_block_kept kv laws s v i k b j refl;
        tip_at = Kept.tip_kept kv laws s v i k b refl;
        meta_at = Kept.meta_kept kv laws s v i k b refl;
        block_meta_at = λ j. elim (Bool-cases (bytes_eq id j)) [
          | inl e ↦ rw e (
              found_optional (k_block_meta j) decode_block_meta b m _ (here k (k_block_meta j) b e)
                (decode_block_meta-encode_block_meta m p u))
          | inr e ↦ rw e (Kept.block_meta_kept kv laws s v i k b j e)
        ];
        children_at = λ j. Kept.children_kept kv laws s v i k b j refl;
        canon_at = λ j u. Kept.canon_kept kv laws s v i k b j u refl;
      }

  same_height :
      (h j : Height) → IsU64 h → IsU64 j → bytes_eq (to_be_bytes 8 h) (to_be_bytes 8 j) ≡ (h == j)
  same_height h j u w = elim (Bool-cases (h == j)) [
    | inl e ↦ rw ((==_iff h j).0 e) (bytes_eq_refl (to_be_bytes 8 j) ∙ sym ((==_iff j j).1 refl))
    | inr e ↦ bytes_eq_ne (to_be_bytes 8 h) (to_be_bytes 8 j) (differ e) ∙ sym e
  ]
    where
      differ : (h == j) ≡ false → to_be_bytes 8 h ≢ to_be_bytes 8 j
      differ e q =
          let same : h ≡ j =
            sym (from_be_bytes-to_be_bytes 8 h u)
            ∙ ap from_be_bytes q
            ∙ from_be_bytes-to_be_bytes 8 j w in
          cc ((==_iff h j).1 same, e)

  -- On a key-value store that keeps the laws, `set_canon_hash` changes the canonical hash at its
  -- height and no other read, for a height and a hash of the Rust types.
  pub set_canon_hash-Implements :
      (h : Height) (x : Hash256)
      → IsU64 h
      → IsHash x
      → Implements kv
          (set_canon_hash kv h x s).1
          (record v { canon = update_at v.canon h (some x) })
  unfolding set_canon_hash get_canon_hash bytes_eq
  set_canon_hash-Implements h x u w =
      let k = k_canon h in
      let b = encode_canon x in
      record {
        header_at = λ j. Kept.header_kept kv laws s v i k b j refl;
        has_header_at = λ j. Kept.has_header_kept kv laws s v i k b j refl;
        block_at = λ j. Kept.block_kept kv laws s v i k b j refl;
        has_block_at = λ j. Kept.has_block_kept kv laws s v i k b j refl;
        tip_at = Kept.tip_kept kv laws s v i k b refl;
        meta_at = Kept.meta_kept kv laws s v i k b refl;
        block_meta_at = λ j. Kept.block_meta_kept kv laws s v i k b j refl;
        children_at = λ j. Kept.children_kept kv laws s v i k b j refl;
        canon_at = λ j uj. elim (Bool-cases (h == j)) [
          | inl e ↦ rw e (
              found_optional (k_canon j) decode_canon b x _
                (here k (k_canon j) b (same_height h j u uj ∙ e)) (decode_canon-encode_canon x w))
          | inr e ↦ rw e (Kept.canon_kept kv laws s v i k b j uj (same_height h j u uj ∙ e))
        ];
      }
