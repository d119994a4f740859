-- ===== src/Chain/Open.antt =====
-- EGG-Chain/crates/egg-chain/src/state.rs: `open_or_init` and `bootstrap_indexes_from_tip`.
use egg_project.Prelude.{
  ℕ, zero, suc, Bool, true, false, not, ◌||◌, Option, none, some, [], Result, ok, err, map_err,
  and_then, bytes_eq, ◌==◌,
}
use egg_project.Types.{Hash256, BlockHeader, ChainSpec}
use egg_project.Exec.{Exec, ◌>>=◌, ◌>>◌}
use egg_project.Kv.{KvStore}
use egg_project.Crypto.Hashing.{Blake3, header_id, hash_chainspec}
use egg_project.Genesis.{genesis_id, genesis_header, validate_chainspec}
use egg_project.Store.Records.{ChainTip, ChainMeta}
use egg_project.Store.Ops.{
  get_block_meta, get_canon_hash, set_canon_hash, add_child, get_tip, get_meta, set_meta,
  put_header, put_block, put_block_meta, set_tip,
}
use egg_project.Chain.Defs.{
  ChainStateError, spec_error, store_error, meta_missing, meta_mismatch, genesis_id_mismatch,
  panicked, out_of_fuel, ChainState, meta_eq, meta_of, Run, asks, writes, branch, fails, returns,
  self, must_header, ensure_block_meta_from_header,
}

module _ (b3 : Blake3) where
  unfoldable pub expected_meta : ChainSpec → Result ChainStateError ChainMeta
  unfolding genesis_id hash_chainspec
  expected_meta spec = and_then (map_err spec_error (genesis_id b3 spec)) λ gid.
      and_then (map_err panicked (hash_chainspec b3 spec)) λ hash.
        ok (record { chain_id = spec.chain.chain_id; genesis_id = gid; chainspec_hash = hash })

abbrev pub is_none : {A : Type 0} → Option A → Bool
is_none none = true
is_none (some a) = false

module _ (kv : KvStore) where
  open kv use {State}

  -- The `loop` of `bootstrap_indexes_from_tip`.
  unfoldable pub bootstrap_loop : ℕ → Hash256 → Run kv (Unit {0})
  bootstrap_loop zero cur = fails kv out_of_fuel
  bootstrap_loop (suc fuel) cur = do
    hdr ← must_header kv cur
    ensure_block_meta_from_header kv cur hdr
    writes kv (set_canon_hash kv hdr.height cur)
    elim (hdr.height == 0) [
      | true ↦ returns kv tt
      | false ↦ do writes kv (add_child kv hdr.parent cur); bootstrap_loop fuel hdr.parent
    ]

  unfoldable pub bootstrap_indexes_from_tip : ℕ → ChainTip → Run kv (Unit {0})
  unfolding asks get_block_meta get_canon_hash branch returns bootstrap_loop ◌>>=◌
  bootstrap_indexes_from_tip fuel tip = do
    bmeta ← asks kv (get_block_meta kv tip.hash)
    canon ← asks kv (get_canon_hash kv tip.height)
    branch kv (not (is_none bmeta || is_none canon)) (returns kv tt) (bootstrap_loop fuel tip.hash)

  module _ (b3 : Blake3) (fuel : ℕ) where
    -- The branch of a store with a tip.
    unfoldable pub reopen : ChainMeta → Option ChainMeta → Run kv (Unit {0})
    unfolding fails meta_eq branch bootstrap_indexes_from_tip self ◌>>=◌
    reopen expected none = fails kv meta_missing
    reopen expected (some got) =
        branch kv (not (meta_eq got expected)) (fails kv (meta_mismatch expected got))
          do st ← self kv; bootstrap_indexes_from_tip fuel st.tip

    -- The branch of a store without one.
    unfoldable pub write_genesis : ChainMeta → BlockHeader → Run kv (Unit {0})
    unfolding header_id branch fails writes set_meta put_header put_block put_block_meta
        set_canon_hash set_tip ◌>>◌
    write_genesis expected hdr =
        branch kv (not (bytes_eq (header_id b3 hdr) expected.genesis_id))
          (fails kv (genesis_id_mismatch expected.genesis_id (header_id b3 hdr)))
          do
            writes kv (set_meta kv expected)
            writes kv (put_header kv expected.genesis_id hdr)
            writes kv (put_block kv expected.genesis_id (record { header = hdr; txs = [] }))
            writes kv (put_block_meta kv expected.genesis_id (meta_of hdr))
            writes kv (set_canon_hash kv 0 expected.genesis_id)
            writes kv (set_tip kv (record { height = 0; hash = expected.genesis_id }))

    -- The state that a method built, if it went well, and the store in any case.
    abbrev pub built :
        Result ChainStateError (Unit {0}) × ChainState State
        → Result ChainStateError (ChainState State) × State
    built (ok _, st) = (ok st, st.store)
    built (err e, st) = (err e, st.store)

    abbrev pub opened :
        ChainSpec → ChainMeta → Option ChainTip → Exec State ChainStateError (ChainState State)
    opened spec expected (some tip) s = elim (get_meta kv s) [
      | err e ↦ (err (store_error e), s)
      | ok got ↦
          built
            (reopen expected got (record { spec = spec; tip = tip; meta = expected; store = s }))
    ]
    opened spec expected none s = elim (genesis_header spec) [
      | err e ↦ (err (spec_error e), s)
      | ok hdr ↦ built (
          write_genesis expected hdr (record {
            spec = spec;
            tip = record { height = 0; hash = expected.genesis_id };
            meta = expected;
            store = s;
          }))
    ]

    abbrev pub with_expected :
        ChainSpec → Result ChainStateError ChainMeta → Exec State ChainStateError (ChainState State)
    with_expected spec (err e) s = (err e, s)
    with_expected spec (ok expected) s = elim (get_tip kv s) [
      | err e ↦ (err (store_error e), s)
      | ok tip ↦ opened spec expected tip s
    ]

    unfoldable pub open_or_init : ChainSpec → Exec State ChainStateError (ChainState State)
    open_or_init spec s =
        with_expected spec
          (and_then (map_err spec_error (validate_chainspec spec)) λ _. expected_meta b3 spec) s
