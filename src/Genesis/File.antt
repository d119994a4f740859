-- ===== src/Genesis/File.antt =====
-- EGG-Chain/crates/egg-chain/src/chainspec.rs: the file of a chain specification. The crate `toml` and
-- the file system are parameters.
use egg_project.Prelude.{
  ◌≡◌, refl, subst, Result, Result-cases, ok, err, map_err, and_then, inl, inr, if◌then◌else◌,
}
use egg_project.Bytes.{Bytes}
use egg_project.Utf8.{is_utf8}
use egg_project.Exec.{Exec, convert, reads, ◌>>=◌, ◌>>◌}
use egg_project.Types.{ChainSpec}
use egg_project.Genesis.{ChainSpecError, io, toml_de, toml_ser, validate_chainspec}

-- What is called of the crate `toml`, for a specification. An error is its text.
pub record Toml : Type 0 where
  pub to_string : ChainSpec → Result Bytes Bytes
  pub from_str : Bytes → Result Bytes ChainSpec

-- What is called of `std::fs`: the bytes of a file, and writing it. An error is its text, and
-- `not_utf8` the text for a file that is no text.
pub record Files : Type 1 where
  pub Disk : Type 0
  pub read : Bytes → Disk → Result Bytes Bytes
  pub write : Bytes → Bytes → Exec Disk Bytes (Unit {0})
  pub not_utf8 : Bytes

module _ (t : Toml) (fs : Files) where
  open fs use {Disk}

  abbrev checked_text : Bytes → Result Bytes Bytes
  checked_text bytes = if is_utf8 bytes then ok bytes else err fs.not_utf8

  -- `std::fs::read_to_string`
  unfoldable pub read_to_string : Bytes → Disk → Result Bytes Bytes
  unfolding is_utf8
  read_to_string path disk = and_then (fs.read path disk) checked_text

  unfoldable pub save_chainspec_to_path : Bytes → ChainSpec → Exec Disk ChainSpecError (Unit {0})
  unfolding validate_chainspec ◌>>=◌ ◌>>◌
  save_chainspec_to_path path spec = do
    reads (λ _. validate_chainspec spec)
    text ← reads (λ _. map_err toml_ser (t.to_string spec))
    convert io (fs.write path text)
    λ disk. (ok tt, disk)

  unfoldable pub load_chainspec_from_path : Bytes → Exec Disk ChainSpecError ChainSpec
  unfolding read_to_string validate_chainspec ◌>>=◌ ◌>>◌
  load_chainspec_from_path path = do
    text ← reads (λ disk. map_err io (read_to_string path disk))
    spec ← reads (λ _. map_err toml_de (t.from_str text))
    reads (λ _. validate_chainspec spec)
    λ disk. (ok spec, disk)

  module _ (path : Bytes) (disk : Disk) (spec : ChainSpec)
      (loaded : (load_chainspec_from_path path disk).0 ≡ ok spec) where
    refuted : (e : ChainSpecError) → (load_chainspec_from_path path disk).0 ≡ err e → ⊥
    refuted e q = cc (loaded, q)

    found :
        (text : Bytes) (other : ChainSpec)
        → read_to_string path disk ≡ ok text
        → t.from_str text ≡ ok other
        → validate_chainspec spec ≡ ok tt
    unfolding load_chainspec_from_path ◌>>=◌ ◌>>◌
    found text other r p = elim (Result-cases (validate_chainspec other)) [
      | inl (u, v) ↦
          let done : (load_chainspec_from_path path disk).0 ≡ ok other = rw (r, p, v) refl in
          let same : other ≡ spec = cc (loaded, done) in
          subst (λ x. validate_chainspec x ≡ ok tt) same v
      | inr (e, v) ↦ absurd (refuted e (rw (r, p, v) refl))
    ]

    pub load_accepted : validate_chainspec spec ≡ ok tt
    unfolding load_chainspec_from_path ◌>>=◌ ◌>>◌
    load_accepted = elim (Result-cases (read_to_string path disk)) [
      | inl (text, r) ↦ elim (Result-cases (t.from_str text)) [
        | inl (other, p) ↦ found text other r p
        | inr (e, p) ↦ absurd (refuted (toml_de e) (rw (r, p) refl))
      ]
      | inr (e, r) ↦ absurd (refuted (io e) (rw r refl))
    ]
