-- ===== src/Chain/Validate.antt =====
-- EGG-Chain/crates/egg-chain/src/state.rs: `validate_best_chain`.
use egg_project.Prelude.{ℕ, zero, suc, not, ◌||◌, map_err, bytes_eq, ◌==◌}
use egg_project.Prelude.Words.{saturating_add}
use egg_project.Types.{Hash256, BlockHeader}
use egg_project.Exec.{◌>>=◌, ◌>>◌}
use egg_project.Kv.{KvStore}
use egg_project.Crypto.Hashing.{Blake3, pow_valid}
use egg_project.Builder.{verify_block_merkle}
use egg_project.Store.Ops.{get_block}
use egg_project.Chain.Defs.{
  missing_block_meta, invalid_pow, block_build, genesis_id_mismatch, height_not_parent_plus_one,
  out_of_fuel, Run, asks, given, branch, fails, returns, self, ensure_block_meta_from_header,
  must_header, must_block, must_block_meta,
}

module _ (kv : KvStore) (b3 : Blake3) where
  -- The checks of one block, up to the test of the height.
  unfoldable pub check_block : Hash256 → Run kv BlockHeader
  unfolding must_header must_block must_block_meta branch fails asks get_block given returns
      pow_valid verify_block_merkle ◌>>=◌ ◌>>◌
  check_block cur = do
    hdr ← must_header kv cur
    must_block kv cur
    meta ← must_block_meta kv cur
    branch kv (not (bytes_eq meta.parent hdr.parent) || not (meta.height == hdr.height))
        (fails kv (missing_block_meta cur))
        (branch kv (not (pow_valid b3 hdr)) (fails kv invalid_pow) do
          blk ← asks kv (get_block kv cur)
          given kv (map_err block_build (verify_block_merkle b3 blk))
          returns kv hdr)

  unfoldable pub check_genesis : Hash256 → Run kv (Unit {0})
  unfolding self branch fails returns ◌>>=◌
  check_genesis cur = do
    st ← self kv
    branch kv (not (bytes_eq cur st.meta.genesis_id))
        (fails kv (genesis_id_mismatch st.meta.genesis_id cur)) (returns kv tt)

  unfoldable pub check_parent : BlockHeader → Run kv (Unit {0})
  unfolding must_header ensure_block_meta_from_header branch fails returns ◌>>=◌
  check_parent hdr = do
    ph ← must_header kv hdr.parent
    pm ← ensure_block_meta_from_header kv hdr.parent ph
    branch kv (not (hdr.height == saturating_add pm.height 1))
        (fails kv (height_not_parent_plus_one pm.height hdr.height)) (returns kv tt)

  -- The `loop`.
  unfoldable pub validate_loop : ℕ → Hash256 → Run kv (Unit {0})
  validate_loop zero cur = fails kv out_of_fuel
  validate_loop (suc fuel) cur = do
    hdr ← check_block cur
    branch kv (hdr.height == 0) (check_genesis cur)
        (check_parent hdr >> validate_loop fuel hdr.parent)

  unfoldable pub validate_best_chain : ℕ → Run kv (Unit {0})
  unfolding self validate_loop ◌>>=◌
  validate_best_chain fuel = do st ← self kv; validate_loop fuel st.tip.hash
