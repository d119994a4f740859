-- ===== src/Store/Kept.antt =====
-- What each read answers after a write under some key.
use egg_project.Prelude.{◌≡◌, sym, ◌∙◌, false, Result, ok, bytes_eq}
use egg_project.Bytes.{Bytes}
use egg_project.Types.{Hash256, Height, IsU64}
use egg_project.Kv.{KvStore, KvLaws}
use egg_project.Store.Records.{StoreError, decode_tip, decode_meta, decode_block_meta, decode_canon}
use egg_project.Store.Keys.{k_header, k_block, k_tip, k_meta, k_block_meta, k_children, k_canon}
use egg_project.Store.Ops.{
  get_optional, get_header, has_header, get_block, has_block, get_tip, get_meta, get_block_meta,
  get_children, get_canon_hash,
}
use egg_project.Store.View.{ChainView, Implements, is_some, required}
use egg_project.Store.Frames.{get_other, has_by_get, get_optional_by_get}

module _ (kv : KvStore) (laws : KvLaws kv) where
  open kv use {State}

  -- Each read, as a function of the bytes under its key.
  module _ (s t : State) where
    header_cong :
        (id : Hash256)
        → kv.get t (k_header id) ≡ kv.get s (k_header id)
        → get_header kv id t ≡ get_header kv id s
    unfolding get_header
    header_cong id e = rw e

    has_header_cong :
        (id : Hash256)
        → kv.get t (k_header id) ≡ kv.get s (k_header id)
        → has_header kv id t ≡ has_header kv id s
    unfolding has_header
    has_header_cong id e =
        rw (has_by_get kv laws t (k_header id), has_by_get kv laws s (k_header id), e)

    block_cong :
        (id : Hash256)
        → kv.get t (k_block id) ≡ kv.get s (k_block id)
        → get_block kv id t ≡ get_block kv id s
    unfolding get_block
    block_cong id e = rw e

    has_block_cong :
        (id : Hash256)
        → kv.get t (k_block id) ≡ kv.get s (k_block id)
        → has_block kv id t ≡ has_block kv id s
    unfolding has_block
    has_block_cong id e =
        rw (has_by_get kv laws t (k_block id), has_by_get kv laws s (k_block id), e)

    optional_cong :
        {A : Type 0} (k : Bytes) (dec : Bytes → Result StoreError A)
        → kv.get t k ≡ kv.get s k
        → get_optional kv k dec t ≡ get_optional kv k dec s
    optional_cong k dec e =
        get_optional_by_get kv laws k dec t ∙ rw e (sym (get_optional_by_get kv laws k dec s))

    children_cong :
        (id : Hash256)
        → kv.get t (k_children id) ≡ kv.get s (k_children id)
        → get_children kv id t ≡ get_children kv id s
    unfolding get_children
    children_cong id e =
        rw (has_by_get kv laws t (k_children id), has_by_get kv laws s (k_children id), e)

  -- After a write of `b` under `k`, a read of another key answers as before.
  module _ (s : State) (v : ChainView) (i : Implements kv s v) (k b : Bytes) where
    abbrev pub after : State
    after = (kv.put s k b).1

    other : (j : Bytes) → bytes_eq k j ≡ false → kv.get after j ≡ kv.get s j
    other j e = get_other kv laws s k j b e

    pub header_kept :
        (id : Hash256)
        → bytes_eq k (k_header id) ≡ false
        → get_header kv id after ≡ required (v.header id)
    header_kept id e = header_cong s after id (other (k_header id) e) ∙ i.header_at id

    pub has_header_kept :
        (id : Hash256)
        → bytes_eq k (k_header id) ≡ false
        → has_header kv id after ≡ ok (is_some (v.header id))
    has_header_kept id e = has_header_cong s after id (other (k_header id) e) ∙ i.has_header_at id

    pub block_kept :
        (id : Hash256)
        → bytes_eq k (k_block id) ≡ false
        → get_block kv id after ≡ required (v.block id)
    block_kept id e = block_cong s after id (other (k_block id) e) ∙ i.block_at id

    pub has_block_kept :
        (id : Hash256)
        → bytes_eq k (k_block id) ≡ false
        → has_block kv id after ≡ ok (is_some (v.block id))
    has_block_kept id e = has_block_cong s after id (other (k_block id) e) ∙ i.has_block_at id

    pub tip_kept : bytes_eq k k_tip ≡ false → get_tip kv after ≡ ok v.tip
    unfolding get_tip
    tip_kept e = optional_cong s after k_tip decode_tip (other k_tip e) ∙ i.tip_at

    pub meta_kept : bytes_eq k k_meta ≡ false → get_meta kv after ≡ ok v.meta
    unfolding get_meta
    meta_kept e = optional_cong s after k_meta decode_meta (other k_meta e) ∙ i.meta_at

    pub block_meta_kept :
        (id : Hash256)
        → bytes_eq k (k_block_meta id) ≡ false
        → get_block_meta kv id after ≡ ok (v.block_meta id)
    unfolding get_block_meta
    block_meta_kept id e =
        optional_cong s after (k_block_meta id) decode_block_meta (other (k_block_meta id) e)
        ∙ i.block_meta_at id

    pub children_kept :
        (id : Hash256)
        → bytes_eq k (k_children id) ≡ false
        → get_children kv id after ≡ ok (v.children id)
    children_kept id e = children_cong s after id (other (k_children id) e) ∙ i.children_at id

    pub canon_kept :
        (h : Height)
        → IsU64 h
        → bytes_eq k (k_canon h) ≡ false
        → get_canon_hash kv h after ≡ ok (v.canon h)
    unfolding get_canon_hash
    canon_kept h u e =
        optional_cong s after (k_canon h) decode_canon (other (k_canon h) e) ∙ i.canon_at h u
