-- ===== src/Examples/Stored.antt =====
-- Uses of the theorems on the chain store.
use egg_project.Prelude.{some, [], arith}
use egg_project.Types.{zero_hash, zero_hash-IsHash}
use egg_project.Kv.{mem_kv, mem_kv-KvLaws}
use egg_project.Store.Records.{ChainTip, BlockMeta}
use egg_project.Store.Ops.{
  put_header, put_block, set_tip, set_canon_hash, put_block_meta, add_child,
}
use egg_project.Store.View.{Implements, empty_view, update, update_at}
use egg_project.Store.Fresh.{empty-Implements}
use egg_project.Store.Refines.{
  put_block_meta-Implements, set_canon_hash-Implements, put_header-Implements, put_block-Implements,
  set_tip-Implements,
}
use egg_project.Store.Children.{with_child, add_child-Implements}
use egg_project.Examples.Data.{
  hash_of, hash_of-IsHash, header_at, header_at-IsHeader, block1, block1-IsBlock,
}
use egg_project.Examples.Codecs.{block1_fits}

put_header-Implements_example :
    Implements mem_kv
      (put_header mem_kv (hash_of 1) (header_at 5 zero_hash) []).1
      (record empty_view {
        header = update empty_view.header (hash_of 1) (some (header_at 5 zero_hash));
      })
put_header-Implements_example =
    put_header-Implements mem_kv mem_kv-KvLaws [] empty_view empty-Implements (hash_of 1)
      (header_at 5 zero_hash) (header_at-IsHeader 5 zero_hash (omega arith) zero_hash-IsHash)

put_block-Implements_example :
    Implements mem_kv
      (put_block mem_kv (hash_of 1) block1 []).1
      (record empty_view { block = update empty_view.block (hash_of 1) (some block1) })
put_block-Implements_example =
    put_block-Implements mem_kv mem_kv-KvLaws [] empty_view empty-Implements (hash_of 1) block1
      block1-IsBlock block1_fits (omega arith)

abbrev tip1 : ChainTip
tip1 = record { height = 3; hash = hash_of 9 }

set_tip-Implements_example :
    Implements mem_kv (set_tip mem_kv tip1 []).1 (record empty_view { tip = some tip1 })
set_tip-Implements_example =
    set_tip-Implements mem_kv mem_kv-KvLaws [] empty_view empty-Implements tip1 (omega arith)
      (hash_of-IsHash 9)

abbrev block_meta1 : BlockMeta
block_meta1 = record { parent = hash_of 3; height = 8 }

put_block_meta-Implements_example :
    Implements mem_kv (put_block_meta mem_kv (hash_of 1) block_meta1 []).1 (record empty_view {
      block_meta = update empty_view.block_meta (hash_of 1) (some block_meta1);
    })
put_block_meta-Implements_example =
    put_block_meta-Implements mem_kv mem_kv-KvLaws [] empty_view empty-Implements (hash_of 1)
      block_meta1 (hash_of-IsHash 3) (omega arith)

set_canon_hash-Implements_example :
    Implements mem_kv
      (set_canon_hash mem_kv 4 (hash_of 1) []).1
      (record empty_view { canon = update_at empty_view.canon 4 (some (hash_of 1)) })
set_canon_hash-Implements_example =
    set_canon_hash-Implements mem_kv mem_kv-KvLaws [] empty_view empty-Implements 4 (hash_of 1)
      (omega arith) (hash_of-IsHash 1)

add_child-Implements_example :
    Implements mem_kv (add_child mem_kv (hash_of 1) (hash_of 2) []).1 (record empty_view {
      children =
          update empty_view.children
            (hash_of 1)
            (with_child mem_kv mem_kv-KvLaws [] empty_view empty-Implements (hash_of 2) []);
    })
add_child-Implements_example =
    add_child-Implements mem_kv mem_kv-KvLaws [] empty_view empty-Implements (hash_of 1) (hash_of 2)
      (hash_of-IsHash 2) tt (omega arith)
