-- ===== src/Chain/Connect.antt =====
-- EGG-Chain/crates/egg-chain/src/state.rs: `try_connect_child` and `connect_descendants_from`.
use egg_project.Prelude.{
  ℕ, zero, suc, Bool, true, false, not, ◌||◌, List, [], ◌∷◌, ◌++◌, bytes_eq, ◌==◌, if◌then◌else◌,
}
use egg_project.Prelude.Words.{saturating_add}
use egg_project.Types.{Hash256, BlockHeader}
use egg_project.Exec.{◌>>=◌, ◌>>◌}
use egg_project.Kv.{KvStore}
use egg_project.Store.Ops.{has_header, has_block, get_header, get_children}
use egg_project.Chain.Defs.{
  out_of_fuel, height_not_parent_plus_one, Run, asks, branch, fails, returns,
  ensure_block_meta_from_header,
}
use egg_project.Chain.Reorg.{maybe_set_tip}

module _ (kv : KvStore) (fuel : ℕ) where
  -- The rest of `try_connect_child` behind the test of the parent.
  unfoldable pub connect_under : Hash256 → Hash256 → BlockHeader → Run kv Bool
  unfolding asks get_header ensure_block_meta_from_header branch fails maybe_set_tip returns ◌>>=◌
      ◌>>◌
  connect_under parent child child_hdr = do
    parent_hdr ← asks kv (get_header kv parent)
    parent_meta ← ensure_block_meta_from_header kv parent parent_hdr
    child_meta ← ensure_block_meta_from_header kv child child_hdr
    branch kv
        (not (child_meta.height == saturating_add parent_meta.height 1)
          || not (child_hdr.height == saturating_add parent_meta.height 1))
        (fails kv (height_not_parent_plus_one parent_meta.height child_hdr.height))
        (maybe_set_tip kv fuel child child_meta.height >> returns kv true)

  -- `!has_header(child)? || !has_block(child)?`: the second is asked for only if the first holds.
  unfoldable pub lacks_data : Hash256 → Run kv Bool
  unfolding asks has_header has_block branch returns ◌>>=◌
  lacks_data child = do
    header_known ← asks kv (has_header kv child)
    branch kv (not header_known) (returns kv true)
        do block_known ← asks kv (has_block kv child); returns kv (not block_known)

  unfoldable pub try_connect_child : Hash256 → Hash256 → Run kv Bool
  unfolding lacks_data connect_under asks get_header branch returns ◌>>=◌
  try_connect_child parent child = do
    lacks ← lacks_data child
    branch kv lacks (returns kv false) do
      child_hdr ← asks kv (get_header kv child)
      branch kv (not (bytes_eq child_hdr.parent parent)) (returns kv false)
          (connect_under parent child child_hdr)

  abbrev pub queue_if : Bool → Hash256 → List Hash256 → List Hash256
  queue_if connected c q = if connected then q ++ (c ∷ []) else q

  -- `for c in children`, on the queue.
  unfoldable pub connect_children : Hash256 → List Hash256 → List Hash256 → Run kv (List Hash256)
  connect_children p [] q = returns kv q
  connect_children p (c ∷ children) q = do
    connected ← try_connect_child p c
    connect_children p children (queue_if connected c q)

  -- `while let Some(p) = q.pop_front()`; the first argument bounds the number of steps.
  unfoldable pub connect_loop : ℕ → List Hash256 → Run kv (Unit {0})
  connect_loop steps [] = returns kv tt
  connect_loop zero (p ∷ q) = fails kv out_of_fuel
  connect_loop (suc steps) (p ∷ q) = do
    children ← asks kv (get_children kv p)
    q' ← connect_children p children q
    connect_loop steps q'

  unfoldable pub connect_descendants_from : Hash256 → Run kv (Unit {0})
  unfolding connect_loop
  connect_descendants_from root = connect_loop fuel (root ∷ [])
