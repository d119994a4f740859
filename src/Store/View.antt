-- ===== src/Store/View.antt =====
-- What a chain store promises: seven maps, whatever bytes they are kept as.
use egg_project.Prelude.{
  ◌≡◌, Bool, true, false, Option, none, some, List, [], Result, ok, err, bytes_eq, ◌==◌,
  if◌then◌else◌,
}
use egg_project.Types.{Hash256, Height, BlockHeader, Block, IsU64}
use egg_project.Kv.{KvStore, not_found}
use egg_project.Store.Records.{StoreError, db, ChainTip, ChainMeta, BlockMeta}
use egg_project.Store.Ops.{
  get_header, has_header, get_block, has_block, get_tip, get_meta, get_block_meta, get_children,
  get_canon_hash,
}

pub record ChainView : Type 0 where
  pub header : Hash256 → Option BlockHeader
  pub block : Hash256 → Option Block
  pub tip : Option ChainTip
  pub meta : Option ChainMeta
  pub block_meta : Hash256 → Option BlockMeta
  pub children : Hash256 → List Hash256
  pub canon : Height → Option Hash256

-- The store with nothing in it.
abbrev pub empty_view : ChainView
empty_view = record {
  header = λ id. none;
  block = λ id. none;
  tip = none;
  meta = none;
  block_meta = λ id. none;
  children = λ id. [];
  canon = λ h. none;
}

abbrev pub update {ℓ} : {A : Type ℓ} → (Hash256 → A) → Hash256 → A → Hash256 → A
update f k v j = if bytes_eq k j then v else f j

abbrev pub update_at {ℓ} : {A : Type ℓ} → (Height → A) → Height → A → Height → A
update_at f k v j = if k == j then v else f j

abbrev pub is_some {ℓ} : {A : Type ℓ} → Option A → Bool
is_some none = false
is_some (some a) = true

-- A read that must find something.
abbrev pub required : {A : Type 0} → Option A → Result StoreError A
required none = err (db not_found)
required (some a) = ok a

-- Every read of the store answers as the maps do.
pub record Implements (kv : KvStore) (s : kv.State) (v : ChainView) : Type 0 where
  pub header_at : (id : Hash256) → get_header kv id s ≡ required (v.header id)
  pub has_header_at : (id : Hash256) → has_header kv id s ≡ ok (is_some (v.header id))
  pub block_at : (id : Hash256) → get_block kv id s ≡ required (v.block id)
  pub has_block_at : (id : Hash256) → has_block kv id s ≡ ok (is_some (v.block id))
  pub tip_at : get_tip kv s ≡ ok v.tip
  pub meta_at : get_meta kv s ≡ ok v.meta
  pub block_meta_at : (id : Hash256) → get_block_meta kv id s ≡ ok (v.block_meta id)
  pub children_at : (id : Hash256) → get_children kv id s ≡ ok (v.children id)
  pub canon_at : (h : Height) → IsU64 h → get_canon_hash kv h s ≡ ok (v.canon h)
