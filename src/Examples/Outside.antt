-- ===== src/Examples/Outside.antt =====
-- Concrete functions for the crates `toml` and `sled` and the file system, and uses of the theorems.
use egg_project.Prelude.{
  ◌≡◌, refl, ◌∙◌, ap, Bool, true, false, Option, none, some, [], ◌∷◌, Result, ok, err, bytes_eq,
  if◌then◌else◌, arith,
}
use egg_project.Prelude.Assoc.{Assoc, lookup, insert, remove, contains_key, lookup-insert}
use egg_project.Bytes.{Bytes}
use egg_project.Utf8.{is_utf8, is_blank}
use egg_project.Kv.{KvLaws, mem_kv, mem_kv-KvLaws}
use egg_project.Kv.Sled.{SledDb, SledLaws, sled_kv, sled_kv-KvLaws}
use egg_project.Genesis.{genesis_fields}
use egg_project.Genesis.File.{Toml, Files, save_chainspec_to_path, load_chainspec_from_path}
use egg_project.Store.View.{Implements}
use egg_project.Store.Fresh.{empty-Implements}
use egg_project.Chain.Defs.{ChainState}
use egg_project.Chain.Fresh.{genesis_view}
use egg_project.Node.Boot.{chainspec_path, db_dir, Databases, DatabaseLaws, boot, boot_fresh}
use egg_project.Examples.Data.{sum_hash, spec1, spec1-IsSpec}

-- Every text stands for one specification.
abbrev one_spec_toml : Toml
one_spec_toml = record { to_string = λ spec. ok (b'#' ∷ []); from_str = λ text. ok spec1 }

-- A disk in memory: the files, and the content of the database.
abbrev MemDisk : Type 0
MemDisk = Assoc Bytes × Assoc Bytes

unfoldable mem_read : Bytes → MemDisk → Result Bytes Bytes
mem_read path disk = elim (lookup path disk.0) [ none ↦ err [] | some text ↦ ok text ]

abbrev mem_files : Files
mem_files = record {
  Disk = MemDisk;
  read = mem_read;
  write = λ path text disk. (ok tt, (insert path text disk.0, disk.1));
  not_utf8 = b'!' ∷ [];
}

abbrev mem_dbs : Databases MemDisk (Assoc Bytes)
mem_dbs = record {
  create_dir_all = λ dir disk. (ok tt, disk);
  open_db = λ dir disk. (ok disk.1, disk);
  kept = λ dir s disk. (disk.0, s);
}

mem_dbs-DatabaseLaws : DatabaseLaws mem_dbs
mem_dbs-DatabaseLaws = record { open-kept = λ dir s disk. refl }

-- The disk with the file of the specification, and an empty database.
abbrev disk1 : MemDisk
disk1 = ((chainspec_path, b'#' ∷ []) ∷ [], [])

saved1 :
    save_chainspec_to_path one_spec_toml mem_files chainspec_path spec1 ([], []) ≡ (ok tt, disk1)
unfolding save_chainspec_to_path is_blank insert
saved1 = refl

loaded1 : load_chainspec_from_path one_spec_toml mem_files chainspec_path disk1 ≡ (ok spec1, disk1)
unfolding load_chainspec_from_path mem_read lookup bytes_eq is_utf8 is_blank
loaded1 = refl

boot_fresh_example :
    ((boot one_spec_toml mem_files mem_kv mem_dbs sum_hash 5 disk1).0 ≡ ok tt)
    × (st : ChainState mem_kv.State) × (mem_dbs.open_db db_dir
          (boot one_spec_toml mem_files mem_kv mem_dbs sum_hash 5 disk1).1
        ≡ (ok st.store, (boot one_spec_toml mem_files mem_kv mem_dbs sum_hash 5 disk1).1))
    × (st.spec ≡ spec1)
    × Implements mem_kv st.store (genesis_view st.meta (genesis_fields spec1))
boot_fresh_example =
    boot_fresh one_spec_toml mem_files mem_kv mem_dbs sum_hash 5 spec1 disk1 disk1 disk1 []
      mem_kv-KvLaws mem_dbs-DatabaseLaws loaded1 refl refl empty-Implements spec1-IsSpec
      (omega arith)

-- A database of `sled` in memory.
abbrev mem_sled : SledDb
mem_sled = record {
  Db = Assoc Bytes;
  Error = Unit {0};
  get = λ k s. ok (lookup k s);
  contains_key = λ k s. ok (contains_key k s);
  insert = λ k v s. (ok (lookup k s), insert k v s);
  remove = λ k s. (ok (lookup k s), remove k s);
  flush = λ s. (ok 0, s);
}

known : (k v : Bytes) (s : Assoc Bytes) → lookup k s ≡ some v → contains_key k s ≡ true
unfolding contains_key
known k v s h = rw (h, contains_key) refl

unknown : (k : Bytes) (s : Assoc Bytes) → lookup k s ≡ none → contains_key k s ≡ false
unfolding contains_key
unknown k s h = rw (h, contains_key) refl

abbrev ok_of : Option Bytes → Result (Unit {0}) (Option Bytes)
ok_of o = ok o

ok_if :
    (c : Bool) (v : Bytes) (o : Option Bytes)
    → ok_of (if c then some v else o) ≡ (if c then ok_of (some v) else ok_of o)
ok_if true v o = refl
ok_if false v o = refl

mem_sled-SledLaws : SledLaws mem_sled
mem_sled-SledLaws = record {
  get_ok = λ k s. (lookup k s, refl);
  contains_some = λ k v s h. ap (λ b. ok b) (known k v s (cc h));
  contains_none = λ k s h. ap (λ b. ok b) (unknown k s (cc h));
  insert_ok = λ k v s. (lookup k s, refl);
  get-insert =
      λ k v j s. ap (λ o. ok o) (lookup-insert k j v s) ∙ ok_if (bytes_eq k j) v (lookup j s);
  flush_ok = λ s. (0, refl);
  get-flush = λ k s. refl;
}

sled_kv-KvLaws_example : KvLaws (sled_kv mem_sled)
sled_kv-KvLaws_example = sled_kv-KvLaws mem_sled mem_sled-SledLaws
