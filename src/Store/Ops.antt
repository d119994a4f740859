-- ===== src/Store/Ops.antt =====
-- EGG-Chain/crates/egg-db/src/store.rs: `BlockStore` and `ChainStore` for `DbChainStore`.
use egg_project.Prelude.{
  Bool, true, false, not, Option, none, some, List, [], ◌∷◌, ◌++◌, Result, ok, err, map_err,
  and_then, bytes_eq, if◌then◌else◌,
}
use egg_project.Bytes.{Bytes}
use egg_project.Types.{Hash256, Height, BlockHeader, Block}
use egg_project.Canonical.Header.{encode_block_header, decode_block_header}
use egg_project.Canonical.Blocks.{encode_block, decode_block}
use egg_project.Kv.{KvStore}
use egg_project.Exec.{Exec}
use egg_project.Store.Records.{
  StoreError, db, decode_as, ChainTip, ChainMeta, BlockMeta, encode_tip, decode_tip, encode_meta,
  decode_meta, encode_block_meta, decode_block_meta, encode_children, decode_children, encode_canon,
  decode_canon,
}
use egg_project.Store.Keys.{k_header, k_block, k_tip, k_meta, k_block_meta, k_children, k_canon}

-- `children.iter().any(|h| *h == child)`
unfoldable pub any_eq : Hash256 → List Hash256 → Bool
any_eq h [] = false
any_eq h (x ∷ xs) = let rest = any_eq h xs in if bytes_eq x h then true else rest

module _ (kv : KvStore) where
  open kv use {State}

  abbrev pub Read : Type 0 → Type 0
  Read A = State → Result StoreError A

  -- `self.kv.put(key, val)?; Ok(())`
  unfoldable pub put : Bytes → Bytes → Exec State StoreError (Unit {0})
  put key val s = let (r, s') = kv.put s key val in (map_err db r, s')

  -- `if !self.kv.has(&key)? { return Ok(None) }`, then the value under the key, decoded.
  unfoldable pub get_optional :
      {A : Type 0} → Bytes → (Bytes → Result StoreError A) → Read (Option A)
  get_optional key dec s = and_then (map_err db (kv.has s key)) λ found.
      if not found
      then ok none
      else and_then (map_err db (kv.get s key)) λ val. and_then (dec val) λ a. ok (some a)

  unfoldable pub put_header : Hash256 → BlockHeader → Exec State StoreError (Unit {0})
  unfolding put
  put_header id header = put (k_header id) (encode_block_header header)

  unfoldable pub get_header : Hash256 → Read BlockHeader
  get_header id s =
      and_then (map_err db (kv.get s (k_header id)))
        λ val. map_err (decode_as "header decode: ") (decode_block_header val)

  unfoldable pub has_header : Hash256 → Read Bool
  has_header id s = map_err db (kv.has s (k_header id))

  unfoldable pub put_block : Hash256 → Block → Exec State StoreError (Unit {0})
  unfolding put
  put_block id block = put (k_block id) (encode_block block)

  unfoldable pub get_block : Hash256 → Read Block
  get_block id s =
      and_then (map_err db (kv.get s (k_block id)))
        λ val. map_err (decode_as "block decode: ") (decode_block val)

  unfoldable pub has_block : Hash256 → Read Bool
  has_block id s = map_err db (kv.has s (k_block id))

  unfoldable pub set_tip : ChainTip → Exec State StoreError (Unit {0})
  unfolding put
  set_tip tip = put k_tip (encode_tip tip)

  unfoldable pub get_tip : Read (Option ChainTip)
  unfolding get_optional
  get_tip = get_optional k_tip decode_tip

  unfoldable pub set_meta : ChainMeta → Exec State StoreError (Unit {0})
  unfolding put
  set_meta meta = put k_meta (encode_meta meta)

  unfoldable pub get_meta : Read (Option ChainMeta)
  unfolding get_optional
  get_meta = get_optional k_meta decode_meta

  unfoldable pub put_block_meta : Hash256 → BlockMeta → Exec State StoreError (Unit {0})
  unfolding put
  put_block_meta id meta = put (k_block_meta id) (encode_block_meta meta)

  unfoldable pub get_block_meta : Hash256 → Read (Option BlockMeta)
  unfolding get_optional
  get_block_meta id = get_optional (k_block_meta id) decode_block_meta

  -- `if self.kv.has(&key)? { decode } else { Vec::new() }`
  unfoldable pub get_children : Hash256 → Read (List Hash256)
  get_children parent s = and_then (map_err db (kv.has s (k_children parent))) λ found.
      if not found
      then ok []
      else and_then (map_err db (kv.get s (k_children parent))) decode_children

  -- The list is written back with the child at its end, unless the child stands in it.
  unfoldable pub push_child : Hash256 → Hash256 → List Hash256 → Exec State StoreError (Unit {0})
  unfolding put
  push_child parent child children s =
      if not (any_eq child children)
      then put (k_children parent) (encode_children (children ++ (child ∷ []))) s
      else (ok tt, s)

  unfoldable pub add_child : Hash256 → Hash256 → Exec State StoreError (Unit {0})
  unfolding get_children push_child
  add_child parent child s = elim (get_children parent s) [
    | ok children ↦ push_child parent child children s
    | err e ↦ (err e, s)
  ]

  unfoldable pub set_canon_hash : Height → Hash256 → Exec State StoreError (Unit {0})
  unfolding put
  set_canon_hash height hash = put (k_canon height) (encode_canon hash)

  unfoldable pub get_canon_hash : Height → Read (Option Hash256)
  unfolding get_optional
  get_canon_hash height = get_optional (k_canon height) decode_canon
