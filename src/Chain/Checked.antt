-- ===== src/Chain/Checked.antt =====
-- `validate_best_chain` and a relation of states.
use egg_project.Prelude.{ℕ, zero, suc, not, map_err, ◌==◌}
use egg_project.Types.{Hash256, BlockHeader}
use egg_project.Kv.{KvStore}
use egg_project.Crypto.Hashing.{Blake3, pow_valid}
use egg_project.Builder.{verify_block_merkle}
use egg_project.Store.Ops.{get_block}
use egg_project.Chain.Defs.{
  ChainState, missing_block_meta, invalid_pow, block_build, genesis_id_mismatch,
  height_not_parent_plus_one, out_of_fuel,
}
use egg_project.Chain.Validate.{
  check_block, check_genesis, check_parent, validate_loop, validate_best_chain,
}
use egg_project.Chain.Keeps.{
  Lawful, Keeps, asks-Keeps, given-Keeps, fails-Keeps, returns-Keeps, branch-Keeps, self-Keeps,
  bind-Keeps, then-Keeps,
}
use egg_project.Chain.Still.{
  must_header-Keeps, must_block-Keeps, must_block_meta-Keeps, ensure_block_meta-Keeps,
}

module _ (kv : KvStore) (R : ChainState kv.State → ChainState kv.State → Type 0)
    (L : Lawful kv R) where
  module _ (b3 : Blake3) where
    check_block-Keeps : (cur : Hash256) → Keeps kv R (check_block kv b3 cur)
    unfolding check_block
    check_block-Keeps cur = bind-Keeps kv R L _ _ (must_header-Keeps kv R L cur) λ hdr.
        then-Keeps kv R L _ _ (must_block-Keeps kv R L cur) (
          bind-Keeps kv R L _ _ (must_block_meta-Keeps kv R L cur) λ meta.
            branch-Keeps kv R L _ _ _ (fails-Keeps kv R L (missing_block_meta cur)) (
              branch-Keeps kv R L (not (pow_valid b3 hdr)) _ _ (fails-Keeps kv R L invalid_pow) (
                bind-Keeps kv R L _ _ (asks-Keeps kv R L (get_block kv cur)) λ blk.
                  then-Keeps kv R L _ _
                    (given-Keeps kv R L (map_err block_build (verify_block_merkle b3 blk)))
                    (returns-Keeps kv R L hdr))))

    check_genesis-Keeps : (cur : Hash256) → Keeps kv R (check_genesis kv b3 cur)
    unfolding check_genesis
    check_genesis-Keeps cur = bind-Keeps kv R L _ _ (self-Keeps kv R L) λ st.
        branch-Keeps kv R L _ _ _ (fails-Keeps kv R L (genesis_id_mismatch st.meta.genesis_id cur))
          (returns-Keeps kv R L tt)

    check_parent-Keeps : (hdr : BlockHeader) → Keeps kv R (check_parent kv b3 hdr)
    unfolding check_parent
    check_parent-Keeps hdr = bind-Keeps kv R L _ _ (must_header-Keeps kv R L hdr.parent) λ ph.
        bind-Keeps kv R L _ _ (ensure_block_meta-Keeps kv R L hdr.parent ph) λ pm.
          branch-Keeps kv R L _ _ _
            (fails-Keeps kv R L (height_not_parent_plus_one pm.height hdr.height))
            (returns-Keeps kv R L tt)

    validate_loop-Keeps : (n : ℕ) (cur : Hash256) → Keeps kv R (validate_loop kv b3 n cur)
    unfolding validate_loop
    validate_loop-Keeps zero cur = fails-Keeps kv R L out_of_fuel
    validate_loop-Keeps (suc n) cur = bind-Keeps kv R L _ _ (check_block-Keeps cur) λ hdr.
        branch-Keeps kv R L (hdr.height == 0) _ _ (check_genesis-Keeps cur)
          (then-Keeps kv R L _ _ (check_parent-Keeps hdr) (validate_loop-Keeps n hdr.parent))

    pub validate_best_chain-Keeps : (n : ℕ) → Keeps kv R (validate_best_chain kv b3 n)
    unfolding validate_best_chain
    validate_best_chain-Keeps n =
        bind-Keeps kv R L _ _ (self-Keeps kv R L) λ st. validate_loop-Keeps n st.tip.hash
