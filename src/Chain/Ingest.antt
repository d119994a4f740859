-- ===== src/Chain/Ingest.antt =====
-- EGG-Chain/crates/egg-chain/src/state.rs: `ingest_block`, `ingest_header` and
-- `mine_and_append_one`.
use egg_project.Prelude.{ℕ, not, map_err, Result, bytes_eq, ◌==◌, if◌then◌else◌}
use egg_project.Prelude.Int.{ℤ}
use egg_project.Prelude.Words.{saturating_add}
use egg_project.Types.{Hash256, BlockHeader, Block}
use egg_project.Exec.{◌>>=◌, ◌>>◌}
use egg_project.Kv.{KvStore}
use egg_project.Crypto.Hashing.{Blake3, header_id, pow_valid}
use egg_project.Builder.{verify_block_merkle}
use egg_project.Mempool.Defs.{Mempool}
use egg_project.Miner.{mine_block_from_mempool}
use egg_project.Store.Ops.{
  has_header, has_block, get_header, get_children, put_header, put_block, put_block_meta, add_child,
  any_eq,
}
use egg_project.Chain.Defs.{
  ChainStateError, invalid_pow, block_build, mining, genesis_id_mismatch, header_mismatch,
  height_not_parent_plus_one, IngestOutcome, already_known, stored_orphan, stored_connected,
  new_tip, HeaderIngestOutcome, header_already_known, header_stored_orphan, header_stored_connected,
  ChainState, header_eq, meta_of, Run, asks, writes, given, branch, fails, returns, self,
  ensure_block_meta_from_header,
}
use egg_project.Chain.Reorg.{maybe_set_tip}
use egg_project.Chain.Connect.{connect_descendants_from}

module _ (kv : KvStore) where
  open kv use {State}

  -- A header of height 0 is known if it is the genesis header, and refused otherwise.
  unfoldable pub genesis_again : {A : Type 0} → Hash256 → A → Run kv (Hash256 × A)
  unfolding self branch fails returns ◌>>=◌
  genesis_again id known = do
    st ← self kv
    branch kv (not (bytes_eq id st.meta.genesis_id))
        (fails kv (genesis_id_mismatch st.meta.genesis_id id)) (returns kv (id, known))

  -- The header, its meta and its place under its parent, as both methods write them.
  unfoldable pub index_header : Hash256 → BlockHeader → Run kv (Unit {0})
  unfolding writes put_block_meta add_child ◌>>◌
  index_header id header =
      writes kv (put_block_meta kv id (meta_of header)) >> writes kv (add_child kv header.parent id)

  -- The check of the height against the parent's.
  unfoldable pub check_height : BlockHeader → Run kv (Unit {0})
  unfolding asks get_header ensure_block_meta_from_header branch fails returns ◌>>=◌
  check_height header = do
    parent_hdr ← asks kv (get_header kv header.parent)
    parent_meta ← ensure_block_meta_from_header kv header.parent parent_hdr
    branch kv (not (header.height == saturating_add parent_meta.height 1))
        (fails kv (height_not_parent_plus_one parent_meta.height header.height)) (returns kv tt)

  module _ (fuel : ℕ) where
    -- The end of `ingest_block`, the same with and without the header known: from
    -- `!has_header(parent)` on.
    unfoldable pub connect_block : Hash256 → BlockHeader → Run kv (Hash256 × IngestOutcome)
    unfolding asks has_header branch returns check_height maybe_set_tip connect_descendants_from
        ◌>>=◌ ◌>>◌
    connect_block id header = do
      parent_known ← asks kv (has_header kv header.parent)
      branch kv (not parent_known) (returns kv (id, stored_orphan)) do
        check_height header
        tip_changed_here ← maybe_set_tip kv fuel id header.height
        connect_descendants_from kv fuel id
        returns kv (id, (if tip_changed_here then new_tip else stored_connected))

    -- The index of the parent's children, written if the block does not stand in it.
    unfoldable pub ensure_child : Hash256 → Hash256 → Run kv (Unit {0})
    unfolding asks get_children any_eq branch writes add_child returns ◌>>=◌
    ensure_child p id = do
      existing_children ← asks kv (get_children kv p)
      branch kv (not (any_eq id existing_children)) (writes kv (add_child kv p id)) (returns kv tt)

    unfoldable pub ingest_known_header : Hash256 → Block → Run kv (Hash256 × IngestOutcome)
    unfolding asks has_block get_header header_eq branch fails returns writes put_block
        ensure_block_meta_from_header ensure_child connect_block ◌>>=◌ ◌>>◌
    ingest_known_header id block = do
      block_known ← asks kv (has_block kv id)
      branch kv block_known (returns kv (id, already_known)) do
        stored_hdr ← asks kv (get_header kv id)
        branch kv (not (header_eq stored_hdr block.header)) (fails kv (header_mismatch id)) do
          writes kv (put_block kv id block)
          ensure_block_meta_from_header kv id block.header
          ensure_child block.header.parent id
          connect_block id block.header

    unfoldable pub ingest_new_header : Hash256 → Block → Run kv (Hash256 × IngestOutcome)
    unfolding writes put_header put_block index_header connect_block ◌>>◌
    ingest_new_header id block = do
      writes kv (put_header kv id block.header)
      writes kv (put_block kv id block)
      index_header id block.header
      connect_block id block.header

    -- `ingest_block` behind its checks.
    unfoldable pub store_block : Hash256 → Block → Run kv (Hash256 × IngestOutcome)
    unfolding asks has_header branch ingest_known_header ingest_new_header ◌>>=◌
    store_block id block = do
      known ← asks kv (has_header kv id)
      branch kv known (ingest_known_header id block) (ingest_new_header id block)

    module _ (b3 : Blake3) where
      unfoldable pub ingest_block : Block → Run kv (Hash256 × IngestOutcome)
      unfolding given verify_block_merkle branch fails pow_valid header_id genesis_again store_block
          ◌>>=◌ ◌>>◌
      ingest_block block = do
        given kv (map_err block_build (verify_block_merkle b3 block))
        branch kv (not (pow_valid b3 block.header)) (fails kv invalid_pow) (
            branch kv (block.header.height == 0)
              (genesis_again (header_id b3 block.header) already_known)
              (store_block (header_id b3 block.header) block))

      -- The pool that mining leaves comes back beside the result.
      unfoldable pub mine_and_append_one :
          Mempool
          → ℤ
          → ℕ
          → ChainState State
          → Result ChainStateError Hash256 × (ChainState State × Mempool)
      unfolding given mine_block_from_mempool ingest_block returns ◌>>=◌
      mine_and_append_one mempool timestamp_utc pow_difficulty_bits st =
          let height = saturating_add st.tip.height 1 in
          let (mined, mempool') =
            mine_block_from_mempool b3 mempool st.tip.hash height timestamp_utc
              pow_difficulty_bits in
          let run = do
            block ← given kv (map_err mining mined)
            out ← ingest_block block
            returns kv out.0
          in let (r, st') = run st in (r, (st', mempool'))

  -- `ingest_header` for a header that is not known.
  unfoldable pub store_header : Hash256 → BlockHeader → Run kv (Hash256 × HeaderIngestOutcome)
  unfolding writes put_header index_header asks has_header branch returns check_height ◌>>=◌ ◌>>◌
  store_header id header = do
    writes kv (put_header kv id header)
    index_header id header
    parent_known ← asks kv (has_header kv header.parent)
    branch kv (not parent_known) (returns kv (id, header_stored_orphan))
        do check_height header; returns kv (id, header_stored_connected)

  module _ (b3 : Blake3) where
    unfoldable pub ingest_header : BlockHeader → Run kv (Hash256 × HeaderIngestOutcome)
    unfolding branch fails pow_valid header_id genesis_again asks has_header returns store_header
        ◌>>=◌
    ingest_header header = branch kv (not (pow_valid b3 header)) (fails kv invalid_pow) (
        branch kv (header.height == 0) (genesis_again (header_id b3 header) header_already_known) do
          known ← asks kv (has_header kv (header_id b3 header))
          branch kv known (returns kv (header_id b3 header, header_already_known))
              (store_header (header_id b3 header) header))
