-- ===== src/Chain/Queries.antt =====
-- EGG-Chain/crates/egg-chain/src/state.rs: `verify_genesis_matches_spec`, `canon_hash` and
-- `get_headers_after`.
use egg_project.Prelude.{
  ℕ, zero, suc, Bool, true, false, not, Option, none, some, List, [], ◌∷◌, map_err, bytes_eq, leb,
  ◌==◌,
}
use egg_project.Prelude.Words.{saturating_add}
use egg_project.Types.{Hash256, Height, BlockHeader}
use egg_project.Exec.{◌>>=◌}
use egg_project.Kv.{KvStore}
use egg_project.Genesis.{genesis_header}
use egg_project.Store.Ops.{get_header, get_canon_hash}
use egg_project.Chain.Defs.{
  spec_error, genesis_header_mismatch, header_eq, Run, asks, given, branch, fails, returns, self,
}

module _ (kv : KvStore) where
  unfoldable pub verify_genesis_matches_spec : Run kv (Unit {0})
  unfolding self given genesis_header asks get_header header_eq branch fails returns ◌>>=◌
  verify_genesis_matches_spec = do
    st ← self kv
    hdr_expected ← given kv (map_err spec_error (genesis_header st.spec))
    hdr_stored ← asks kv (get_header kv st.meta.genesis_id)
    branch kv (not (header_eq hdr_stored hdr_expected)) (fails kv genesis_header_mismatch)
        (returns kv tt)

  unfoldable pub canon_hash : Height → Run kv (Option Hash256)
  unfolding asks get_canon_hash
  canon_hash height = asks kv (get_canon_hash kv height)

  abbrev pub is_hash : Hash256 → Option Hash256 → Bool
  is_hash start_hash none = false
  is_hash start_hash (some x) = bytes_eq x start_hash

  -- `for h in 0..=tip`: the heights from `h` on, of which `left` are left.
  unfoldable pub find_start : Hash256 → ℕ → ℕ → Run kv (Option ℕ)
  find_start start_hash zero h = returns kv none
  find_start start_hash (suc left) h = do
    hh ← asks kv (get_canon_hash kv h)
    elim (is_hash start_hash hh) [
      | true ↦ returns kv (some h)
      | false ↦ find_start start_hash left (suc h)
    ]

  -- The `while` loop: `room` is `max - out.len()`, and the headers come in order.
  unfoldable pub collect : ℕ → ℕ → ℕ → Run kv (List BlockHeader)
  collect zero top cur_h = returns kv []
  collect (suc room) top cur_h = elim (leb cur_h top) [
    | false ↦ returns kv []
    | true ↦ do
      hh ← asks kv (get_canon_hash kv cur_h)
      elim hh [
        | none ↦ returns kv []
        | some x ↦ do
          hdr ← asks kv (get_header kv x)
          rest ← collect room top (saturating_add cur_h 1)
          returns kv (hdr ∷ rest)
      ]
  ]

  unfoldable pub headers_behind : ℕ → ℕ → Option ℕ → Run kv (List BlockHeader)
  unfolding collect returns
  headers_behind max top none = returns kv []
  headers_behind max top (some sh) = collect max top (saturating_add sh 1)

  unfoldable pub get_headers_after : Hash256 → ℕ → Run kv (List BlockHeader)
  unfolding branch returns self find_start headers_behind ◌>>=◌
  get_headers_after start_hash max = branch kv (max == 0) (returns kv []) do
    st ← self kv
    start_h ← find_start start_hash (suc st.tip.height) 0
    headers_behind max st.tip.height start_h
