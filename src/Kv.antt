-- ===== src/Kv.antt =====
-- EGG-Chain/crates/egg-db/src/lib.rs: the key-value store that the chain store stands on, as an
-- interface, and its implementation in memory. The lock of `MemKv` is not modelled.
pub mod Sled
use egg_project.Prelude.{
  ◌≡◌, refl, Bool, true, false, none, some, Result, ok, err, arith, bytes_eq, if◌then◌else◌,
}
use egg_project.Prelude.Assoc.{
  Assoc, lookup, insert, remove, contains_key, lookup-insert, lookup-remove,
}
use egg_project.Bytes.{Bytes}

-- The text of a `sled` error is not kept.
pub data DbError : Type 0 where
  not_found sled : DbError

-- `trait KvStore`. A call that fails may have changed the store.
pub record KvStore : Type 1 where
  pub State : Type 0
  pub get : State → Bytes → Result DbError Bytes
  pub put : State → Bytes → Bytes → Result DbError (Unit {0}) × State
  pub del : State → Bytes → Result DbError (Unit {0}) × State
  pub has : State → Bytes → Result DbError Bool

-- What the chain store relies on: reads and writes do not fail, and a read returns what was
-- written last under its key.
pub record KvLaws (kv : KvStore) : Type 0 where
  pub put_ok : (s : kv.State) (k v : Bytes) → (kv.put s k v).0 ≡ ok tt
  pub has_get :
      (s : kv.State) (k : Bytes)
      → kv.has s k ≡ (elim (kv.get s k) [ ok _ ↦ ok true | err _ ↦ ok false ])
  pub get_absent : (s : kv.State) (k : Bytes) (e : DbError) → kv.get s k ≡ err e → e ≡ not_found
  pub get-put :
      (s : kv.State) (k j v : Bytes)
      → kv.get (kv.put s k v).1 j ≡ (if bytes_eq k j then ok v else kv.get s j)

-- `MemKv`
unfoldable pub mem_get : Assoc Bytes → Bytes → Result DbError Bytes
mem_get m k = elim (lookup k m) [ none ↦ err not_found | some v ↦ ok v ]

unfoldable pub mem_put : Assoc Bytes → Bytes → Bytes → Result DbError (Unit {0}) × Assoc Bytes
mem_put m k v = (ok tt, insert k v m)

unfoldable pub mem_del : Assoc Bytes → Bytes → Result DbError (Unit {0}) × Assoc Bytes
mem_del m k = (ok tt, remove k m)

unfoldable pub mem_has : Assoc Bytes → Bytes → Result DbError Bool
mem_has m k = ok (contains_key k m)

abbrev pub mem_kv : KvStore
mem_kv = record { State = Assoc Bytes; get = mem_get; put = mem_put; del = mem_del; has = mem_has }

mem_has_get :
    (m : Assoc Bytes) (k : Bytes)
    → mem_has m k ≡ (elim (mem_get m k) [ ok _ ↦ ok true | err _ ↦ ok false ])
unfolding mem_has mem_get contains_key
mem_has_get m k = ground arith

mem_get_absent : (m : Assoc Bytes) (k : Bytes) (e : DbError) → mem_get m k ≡ err e → e ≡ not_found
unfolding mem_get
mem_get_absent m k e h = ground arith

mem_get-put :
    (m : Assoc Bytes) (k j v : Bytes)
    → mem_get (mem_put m k v).1 j ≡ (if bytes_eq k j then ok v else mem_get m j)
unfolding mem_get mem_put
mem_get-put m k j v = ground (arith, lookup-insert k j v m)

mem_put_ok : (m : Assoc Bytes) (k v : Bytes) → (mem_put m k v).0 ≡ ok tt
unfolding mem_put
mem_put_ok m k v = refl

-- The store in memory keeps the laws.
pub mem_kv-KvLaws : KvLaws mem_kv
mem_kv-KvLaws = record {
  put_ok = mem_put_ok;
  has_get = mem_has_get;
  get_absent = mem_get_absent;
  get-put = mem_get-put;
}

-- After a deletion the key is absent, and every other key reads as before.
pub mem_get-del :
    (m : Assoc Bytes) (k j : Bytes)
    → mem_get (mem_del m k).1 j ≡ (if bytes_eq k j then err not_found else mem_get m j)
unfolding mem_get mem_del
mem_get-del m k j = ground (arith, lookup-remove k j m)
