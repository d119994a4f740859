-- ===== src/Chain/Defs.antt =====
-- EGG-Chain/crates/egg-chain/src/state.rs: errors, outcomes, the state and its small methods.
use egg_project.Prelude.{
  Bool, true, false, not, ◌&&◌, Option, none, some, Result, ok, err, map_err, bytes_eq, bytes_lt,
  ◌==◌,
}
use egg_project.Prelude.Int.{ℤ, pos, negsuc}
use egg_project.Types.{Hash256, Height, BlockHeader, Block, ChainSpec}
use egg_project.Canonical.Base.{CanonicalError}
use egg_project.Exec.{Exec, ◌>>=◌, ◌>>◌}
use egg_project.Kv.{KvStore}
use egg_project.Genesis.{ChainSpecError}
use egg_project.Builder.{BlockBuildError}
use egg_project.Miner.{MiningError}
use egg_project.Store.Records.{StoreError, ChainTip, ChainMeta, BlockMeta}
use egg_project.Store.Ops.{
  get_header, has_header, get_block, has_block, get_block_meta, put_block_meta,
}

-- `meta_mismatch expected got`, `height_not_parent_plus_one parent_height child_height`,
-- `genesis_id_mismatch expected got`. The last two are not the source's: `panicked` stands for the
-- panic of `encode_chainspec`, and `out_of_fuel` for a loop that took more steps than it was given.
pub data ChainStateError : Type 0 where
  spec_error : ChainSpecError → ChainStateError
  store_error : StoreError → ChainStateError
  mining : MiningError → ChainStateError
  block_build : BlockBuildError → ChainStateError
  meta_missing : ChainStateError
  meta_mismatch : ChainMeta → ChainMeta → ChainStateError
  genesis_header_mismatch : ChainStateError
  invalid_pow : ChainStateError
  height_not_parent_plus_one : Height → Height → ChainStateError
  genesis_id_mismatch : Hash256 → Hash256 → ChainStateError
  missing_header : Hash256 → ChainStateError
  missing_block : Hash256 → ChainStateError
  missing_block_meta : Hash256 → ChainStateError
  header_mismatch : Hash256 → ChainStateError
  panicked : CanonicalError → ChainStateError
  out_of_fuel : ChainStateError

pub data IngestOutcome : Type 0 where
  already_known stored_orphan stored_connected new_tip : IngestOutcome

pub data HeaderIngestOutcome : Type 0 where
  header_already_known header_stored_orphan header_stored_connected : HeaderIngestOutcome

-- `store` is the content of the store that the Rust value is a handle of.
pub record ChainState (S : Type 0) : Type 0 where
  pub spec : ChainSpec
  pub tip : ChainTip
  pub meta : ChainMeta
  pub store : S

-- `hash_lt`
abbrev pub hash_lt : Hash256 → Hash256 → Bool
hash_lt = bytes_lt

unfoldable pub int_eq : ℤ → ℤ → Bool
int_eq (pos a) (pos b) = a == b
int_eq (negsuc a) (negsuc b) = a == b
int_eq _ _ = false

-- The derived `==` of `BlockHeader` and of `ChainMeta`.
unfoldable pub header_eq : BlockHeader → BlockHeader → Bool
unfolding bytes_eq int_eq
header_eq a b =
    bytes_eq a.parent b.parent
    && (a.height == b.height)
    && int_eq a.timestamp_utc b.timestamp_utc
    && (a.nonce == b.nonce)
    && bytes_eq a.merkle_root b.merkle_root
    && (a.pow_difficulty_bits == b.pow_difficulty_bits)

unfoldable pub meta_eq : ChainMeta → ChainMeta → Bool
unfolding bytes_eq
meta_eq a b =
    (a.chain_id == b.chain_id)
    && bytes_eq a.genesis_id b.genesis_id
    && bytes_eq a.chainspec_hash b.chainspec_hash

-- What a block meta says of a header: `BlockMeta { parent: hdr.parent, height: hdr.height }`
abbrev pub meta_of : BlockHeader → BlockMeta
meta_of hdr = record { parent = hdr.parent; height = hdr.height }

module _ (kv : KvStore) where
  open kv use {State}

  -- A method on `self`. Its changes stay when it fails.
  abbrev pub Run : Type 0 → Type 0
  Run A = Exec (ChainState State) ChainStateError A

  module _ {A : Type 0} where
    -- A call of the store that reads, and one that writes.
    unfoldable pub asks : (State → Result StoreError A) → Run A
    asks f st = (map_err store_error (f st.store), st)

    unfoldable pub writes : Exec State StoreError A → Run A
    writes m st = let (r, s') = m st.store in (map_err store_error r, record st { store = s' })

    -- `?` on a result.
    unfoldable pub given : Result ChainStateError A → Run A
    given r st = (r, st)

    -- `ok_or` on an option.
    unfoldable pub given_some : ChainStateError → Option A → Run A
    given_some e none st = (err e, st)
    given_some e (some a) st = (ok a, st)

    -- `return Err(e)`, and `Ok(a)`
    unfoldable pub fails : ChainStateError → Run A
    fails e st = (err e, st)

    unfoldable pub returns : A → Run A
    returns a st = (ok a, st)

    -- `if b { taken } else { other }`
    unfoldable pub branch : Bool → Run A → Run A → Run A
    branch true taken other = taken
    branch false taken other = other

  -- `self`
  unfoldable pub self : Run (ChainState State)
  self st = (ok st, st)

  -- `self.tip = tip`
  unfoldable pub assign_tip : ChainTip → Run (Unit {0})
  assign_tip tip st = (ok tt, record st { tip = tip })

  unfoldable pub meta_or_put : Hash256 → BlockHeader → Option BlockMeta → Run BlockMeta
  unfolding writes put_block_meta ◌>>◌ returns
  meta_or_put id hdr (some m) = returns m
  meta_or_put id hdr none = writes (put_block_meta kv id (meta_of hdr)) >> returns (meta_of hdr)

  unfoldable pub ensure_block_meta_from_header : Hash256 → BlockHeader → Run BlockMeta
  unfolding asks get_block_meta meta_or_put ◌>>=◌
  ensure_block_meta_from_header id hdr = do
    found ← asks (get_block_meta kv id)
    meta_or_put id hdr found

  unfoldable pub must_block_meta : Hash256 → Run BlockMeta
  unfolding asks get_block_meta given_some ◌>>=◌
  must_block_meta id = do
    found ← asks (get_block_meta kv id)
    given_some (missing_block_meta id) found

  unfoldable pub must_header : Hash256 → Run BlockHeader
  unfolding asks has_header get_header fails branch ◌>>=◌
  must_header id = do
    found ← asks (has_header kv id)
    branch (not found) (fails (missing_header id)) (asks (get_header kv id))

  unfoldable pub must_block : Hash256 → Run Block
  unfolding asks has_block get_block fails branch ◌>>=◌
  must_block id = do
    found ← asks (has_block kv id)
    branch (not found) (fails (missing_block id)) (asks (get_block kv id))
