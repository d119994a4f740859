-- ===== src/Chain/Reorg.antt =====
-- EGG-Chain/crates/egg-chain/src/state.rs: `reorg_canonical` and `maybe_set_tip`. Each loop that
-- follows parents up to a block that it has to find takes its number of steps as `fuel`.
use egg_project.Prelude.{
  ℕ, zero, suc, ◌-◌, Bool, true, false, List, [], ◌∷◌, ltb, bytes_eq, ◌==◌, if◌then◌else◌,
}
use egg_project.Prelude.Words.{saturating_sub}
use egg_project.Types.{Hash256, Height}
use egg_project.Exec.{◌>>=◌, ◌>>◌}
use egg_project.Kv.{KvStore}
use egg_project.Store.Records.{ChainTip}
use egg_project.Store.Ops.{set_tip, set_canon_hash}
use egg_project.Chain.Defs.{
  hash_lt, out_of_fuel, Run, writes, fails, returns, self, assign_tip, must_block_meta,
}

-- The two branches' blocks, and the height of the first.
pub record Pair : Type 0 where
  pub a : Hash256
  pub ha : ℕ

-- `candidate` is better than `tip`: higher, or as high with a smaller hash.
unfoldable pub better : Hash256 → Height → ChainTip → Bool
better candidate_hash candidate_height tip =
    if ltb tip.height candidate_height
    then true
    else if candidate_height == tip.height
    then hash_lt candidate_hash tip.hash
    else false

module _ (kv : KvStore) where
  -- `while ha > hb`, which takes `ha - hb` steps; `while hb > ha` is the same with `b`.
  unfoldable pub climb : ℕ → Hash256 → ℕ → Run kv Pair
  climb zero a ha = returns kv (record { a = a; ha = ha })
  climb (suc steps) a ha = do m ← must_block_meta kv a; climb steps m.parent (saturating_sub ha 1)

  -- `while a != b`
  unfoldable pub meet : ℕ → Hash256 → Hash256 → ℕ → Run kv ℕ
  meet zero a b ha = elim (bytes_eq a b) [ true ↦ returns kv ha | false ↦ fails kv out_of_fuel ]
  meet (suc fuel) a b ha = elim (bytes_eq a b) [
    | true ↦ returns kv ha
    | false ↦ do
      ma ← must_block_meta kv a
      mb ← must_block_meta kv b
      meet fuel ma.parent mb.parent (saturating_sub ha 1)
  ]

  -- The `loop` that collects the path; an entry goes to the front, so that the list is the one that
  -- `path.reverse()` leaves.
  unfoldable pub path_from :
      ℕ → Hash256 → Height → List (Height × Hash256) → Run kv (List (Height × Hash256))
  path_from zero cur ancestor_height path = fails kv out_of_fuel
  path_from (suc fuel) cur ancestor_height path = do
    m ← must_block_meta kv cur
    elim (m.height == ancestor_height) [
      | true ↦ returns kv path
      | false ↦ path_from fuel m.parent ancestor_height ((m.height, cur) ∷ path)
    ]

  unfoldable pub write_path : List (Height × Hash256) → Run kv (Unit {0})
  write_path [] = returns kv tt
  write_path ((h, x) ∷ path) = do writes kv (set_canon_hash kv h x); write_path path

  unfoldable pub reorg_canonical : ℕ → ChainTip → ChainTip → Run kv (Unit {0})
  unfolding climb meet path_from write_path ◌>>=◌ ◌>>◌
  reorg_canonical fuel old_tip new_tip = do
    top ← climb (new_tip.height - old_tip.height) new_tip.hash new_tip.height
    low ← climb (old_tip.height - new_tip.height) old_tip.hash old_tip.height
    ancestor_height ← meet fuel top.a low.a top.ha
    path ← path_from fuel new_tip.hash ancestor_height []
    write_path path

  unfoldable pub replace_tip : ℕ → ChainTip → ChainTip → Run kv Bool
  unfolding writes set_tip assign_tip reorg_canonical returns ◌>>=◌ ◌>>◌
  replace_tip fuel old new_tip = do
    writes kv (set_tip kv new_tip)
    assign_tip kv new_tip
    reorg_canonical fuel old new_tip
    returns kv true

  unfoldable pub maybe_set_tip : ℕ → Hash256 → Height → Run kv Bool
  unfolding self better replace_tip returns ◌>>=◌
  maybe_set_tip fuel candidate_hash candidate_height = do
    st ← self kv
    elim (better candidate_hash candidate_height st.tip) [
      | true ↦ replace_tip fuel st.tip (record { height = candidate_height; hash = candidate_hash })
      | false ↦ returns kv false
    ]
