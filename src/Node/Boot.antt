-- ===== src/Node/Boot.antt =====
-- EGG-Chain/crates/egg-node/src/main.rs: `run`. The crate `toml`, the file system and the databases on
-- it are parameters.
use egg_project.Prelude.{ℕ, ◌^◌, ◌<◌, ◌≡◌, refl, sym, ap, subst, ◌∷◌, [], length, ok, map_err}
use egg_project.Bytes.{Bytes}
use egg_project.Exec.{Exec, convert, reads, ◌>>=◌, ◌>>◌}
use egg_project.Types.{ChainSpec, IsSpec}
use egg_project.Kv.{DbError, KvStore, KvLaws}
use egg_project.Crypto.Hashing.{Blake3}
use egg_project.Genesis.{ChainSpecError, genesis_fields, validate_chainspec}
use egg_project.Genesis.File.{Toml, Files, load_chainspec_from_path, load_accepted}
use egg_project.Store.View.{Implements, empty_view}
use egg_project.Chain.Defs.{ChainState, ChainStateError}
use egg_project.Chain.Open.{open_or_init}
use egg_project.Chain.Queries.{verify_genesis_matches_spec}
use egg_project.Chain.Fresh.{genesis_view, open_or_init_fresh}
use egg_project.Chain.Verified.{verified}

-- `Box<dyn std::error::Error>`. An error of the file system is its text.
pub data BootError : Type 0 where
  chainspec : ChainSpecError → BootError
  io : Bytes → BootError
  db : DbError → BootError
  chain : ChainStateError → BootError

-- "config/chainspec.toml"
abbrev pub chainspec_path : Bytes
chainspec_path =
    b'c' ∷ b'o' ∷ b'n' ∷ b'f' ∷ b'i' ∷ b'g' ∷ b'/' ∷ b'c' ∷ b'h' ∷ b'a' ∷ b'i' ∷ b'n' ∷ b's' ∷ b'p'
    ∷ b'e' ∷ b'c' ∷ b'.' ∷ b't' ∷ b'o' ∷ b'm' ∷ b'l' ∷ []

-- "data/egg-node"
abbrev pub db_dir : Bytes
db_dir =
    b'd' ∷ b'a' ∷ b't' ∷ b'a' ∷ b'/' ∷ b'e' ∷ b'g' ∷ b'g' ∷ b'-' ∷ b'n' ∷ b'o' ∷ b'd' ∷ b'e' ∷ []

-- What is called of the file system and of `SledKv::open` besides, for a database of the content
-- `State`. An open database writes to the disk: `kept` is the disk on which that of a directory has
-- got a content.
pub record Databases (Disk State : Type 0) : Type 0 where
  pub create_dir_all : Bytes → Exec Disk Bytes (Unit {0})
  pub open_db : Bytes → Exec Disk DbError State
  pub kept : Bytes → State → Disk → Disk

-- A database that is opened again has its content.
pub record DatabaseLaws {Disk State : Type 0} (dbs : Databases Disk State) : Type 0 where
  pub open-kept :
      (dir : Bytes) (s : State) (disk : Disk)
      → dbs.open_db dir (dbs.kept dir s disk) ≡ (ok s, dbs.kept dir s disk)

module _ (t : Toml) (fs : Files) (kv : KvStore) (dbs : Databases fs.Disk kv.State) (b3 : Blake3)
    (fuel : ℕ) where
  open fs use {Disk}

  -- `ChainState::open_or_init(store, spec)?`: what was written is on the disk, also when it fails.
  unfoldable pub open_on_disk : ChainSpec → kv.State → Exec Disk BootError (ChainState kv.State)
  unfolding open_or_init
  open_on_disk spec store disk =
      let (r, s) = open_or_init kv b3 fuel spec store in (map_err chain r, dbs.kept db_dir s disk)

  unfoldable pub boot : Exec Disk BootError (Unit {0})
  unfolding load_chainspec_from_path open_on_disk verify_genesis_matches_spec ◌>>=◌ ◌>>◌
  boot = do
    spec ← convert chainspec (load_chainspec_from_path t fs chainspec_path)
    convert io (dbs.create_dir_all db_dir)
    store ← convert db (dbs.open_db db_dir)
    state ← open_on_disk spec store
    reads (λ _. map_err chain (verify_genesis_matches_spec kv state).0)
    λ disk. (ok tt, disk)

  -- On a key-value store that keeps the laws, with a database that has its content when it is opened
  -- again: where the file gives a specification of the Rust type with a name shorter than 2 ^ 32
  -- bytes, the directory is made, and the database opens and holds nothing, the node boots, and the
  -- database on the disk then holds the genesis block of that specification and nothing else.
  pub boot_fresh :
      (spec : ChainSpec) (disk made found : Disk) (s : kv.State)
      → KvLaws kv
      → DatabaseLaws dbs
      → load_chainspec_from_path t fs chainspec_path disk ≡ (ok spec, disk)
      → dbs.create_dir_all db_dir disk ≡ (ok tt, made)
      → dbs.open_db db_dir made ≡ (ok s, found)
      → Implements kv s empty_view
      → IsSpec spec
      → length spec.chain.chain_name < 2 ^ 32
      → ((boot disk).0 ≡ ok tt)
        × (st : ChainState kv.State) × (dbs.open_db db_dir (boot disk).1
            ≡ (ok st.store, (boot disk).1))
        × (st.spec ≡ spec)
        × Implements kv st.store (genesis_view st.meta (genesis_fields spec))
  boot_fresh spec disk made found s laws again l c o i v n =
      let e = load_accepted t fs chainspec_path disk spec (ap (λ p. p.0) l) in
      let (st, opened, same, _, _, after) = open_or_init_fresh kv laws b3 fuel spec s i v n e in
      let fine : verify_genesis_matches_spec kv st ≡ (ok tt, st) =
        verified kv st (subst (λ x. validate_chainspec x ≡ ok tt) (sym same) e) (
          subst (λ x. Implements kv st.store (genesis_view st.meta (genesis_fields x))) (sym same)
            after) in
      let run : boot disk ≡ (ok tt, dbs.kept db_dir st.store found) =
        unfold boot ◌>>=◌ ◌>>◌ in rw (l, c, o, opened, fine) refl in
      (
        ap (λ p. p.0) run,
        st,
        subst (λ d. dbs.open_db db_dir d ≡ (ok st.store, d)) (sym (ap (λ p. p.1) run))
            (again.open-kept db_dir st.store found),
        same,
        after,
      )
