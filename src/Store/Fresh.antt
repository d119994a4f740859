-- ===== src/Store/Fresh.antt =====
-- An empty store in memory holds none of the chain's data.
use egg_project.Prelude.{refl, []}
use egg_project.Prelude.Assoc.{lookup, contains_key}
use egg_project.Kv.{mem_kv, mem_get, mem_has}
use egg_project.Store.View.{Implements, empty_view}
use egg_project.Store.Ops.{
  get_header, has_header, get_block, has_block, get_tip, get_meta, get_block_meta, get_children,
  get_canon_hash,
}

-- Every read of an empty store in memory answers that there is nothing.
pub empty-Implements : Implements mem_kv [] empty_view
unfolding get_header has_header get_block has_block get_tip get_meta get_block_meta get_children
    get_canon_hash mem_get lookup mem_has contains_key
empty-Implements = record {
  header_at = λ id. refl;
  has_header_at = λ id. refl;
  block_at = λ id. refl;
  has_block_at = λ id. refl;
  tip_at = refl;
  meta_at = refl;
  block_meta_at = λ id. refl;
  children_at = λ id. refl;
  canon_at = λ h u. refl;
}
