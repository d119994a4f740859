-- ===== src/Kv/Sled.antt =====
-- EGG-Chain/crates/egg-db/src/sled_kv.rs: `SledKv`, on the crate `sled`, which is a parameter.
use egg_project.Prelude.{
  ℕ, ◌≡◌, refl, ◌∙◌, ap, subst, Bool, true, false, Option, none, some, Result, ok, err, map_err,
  bytes_eq, if◌then◌else◌, inl, inr, Option-cases,
}
use egg_project.Bytes.{Bytes}
use egg_project.Exec.{Exec, convert, ◌>>=◌, ◌>>◌}
use egg_project.Kv.{DbError, not_found, sled, KvStore, KvLaws}

-- What is called of `sled::Db`. `insert` and `remove` answer with the value that was there before,
-- and `flush` with the number of bytes that it wrote.
pub record SledDb : Type 1 where
  pub Db : Type 0
  pub Error : Type 0
  pub get : Bytes → Db → Result Error (Option Bytes)
  pub contains_key : Bytes → Db → Result Error Bool
  pub insert : Bytes → Bytes → Exec Db Error (Option Bytes)
  pub remove : Bytes → Exec Db Error (Option Bytes)
  pub flush : Exec Db Error ℕ

-- What the documentation of `sled` says of a database that works.
pub record SledLaws (d : SledDb) : Type 0 where
  pub get_ok : (k : Bytes) (s : d.Db) → (v : Option Bytes) × (d.get k s ≡ ok v)
  pub contains_some :
      (k v : Bytes) (s : d.Db) → d.get k s ≡ ok (some v) → d.contains_key k s ≡ ok true
  pub contains_none : (k : Bytes) (s : d.Db) → d.get k s ≡ ok none → d.contains_key k s ≡ ok false
  pub insert_ok : (k v : Bytes) (s : d.Db) → (old : Option Bytes) × ((d.insert k v s).0 ≡ ok old)
  pub get-insert :
      (k v j : Bytes) (s : d.Db)
      → d.get j (d.insert k v s).1 ≡ (if bytes_eq k j then ok (some v) else d.get j s)
  pub flush_ok : (s : d.Db) → (n : ℕ) × ((d.flush s).0 ≡ ok n)
  pub get-flush : (k : Bytes) (s : d.Db) → d.get k (d.flush s).1 ≡ d.get k s

module _ (d : SledDb) where
  -- `?` on an error of `sled`.
  abbrev db_error : d.Error → DbError
  db_error e = sled

  unfoldable pub found : Result d.Error (Option Bytes) → Result DbError Bytes
  found (ok (some v)) = ok v
  found (ok none) = err not_found
  found (err e) = err sled

  -- `let _ = call?; self.db.flush()?; Ok(())`
  unfoldable pub flushed : {A : Type 0} → Exec d.Db d.Error A → Exec d.Db DbError (Unit {0})
  unfolding ◌>>=◌ ◌>>◌
  flushed m = do convert db_error m; convert db_error d.flush; λ s. (ok tt, s)

  unfoldable pub sled_get : d.Db → Bytes → Result DbError Bytes
  unfolding found
  sled_get s key = found (d.get key s)

  unfoldable pub sled_put : d.Db → Bytes → Bytes → Result DbError (Unit {0}) × d.Db
  unfolding flushed
  sled_put s key value = flushed (d.insert key value) s

  unfoldable pub sled_del : d.Db → Bytes → Result DbError (Unit {0}) × d.Db
  unfolding flushed
  sled_del s key = flushed (d.remove key) s

  unfoldable pub sled_has : d.Db → Bytes → Result DbError Bool
  sled_has s key = map_err db_error (d.contains_key key s)

  abbrev pub sled_kv : KvStore
  sled_kv = record { State = d.Db; get = sled_get; put = sled_put; del = sled_del; has = sled_has }

  module _ (laws : SledLaws d) where
    put_done : (s : d.Db) (k v : Bytes) → (sled_put s k v ≡ (ok tt, (d.flush (d.insert k v s).1).1))
    unfolding sled_put ◌>>=◌ ◌>>◌
    put_done s k v =
        let (old, e) = laws.insert_ok k v s in
        let (n, f) = laws.flush_ok (d.insert k v s).1 in rw (e, f) refl

    has_found :
        (s : d.Db) (k : Bytes)
        → sled_has s k ≡ (elim (sled_get s k) [ ok _ ↦ ok true | err _ ↦ ok false ])
    unfolding sled_has sled_get
    has_found s k =
        let (v, e) = laws.get_ok k s in
        elim (Option-cases v) [
          | inl q ↦
              let missing : d.get k s ≡ ok none = e ∙ ap (λ o. ok o) q in
              rw (laws.contains_none k s missing, missing) refl
          | inr (b, q) ↦
              let there : d.get k s ≡ ok (some b) = e ∙ ap (λ o. ok o) q in
              rw (laws.contains_some k b s there, there) refl
        ]

    absent : (s : d.Db) (k : Bytes) (e : DbError) → sled_get s k ≡ err e → e ≡ not_found
    unfolding sled_get found
    absent s k e h =
        let (v, g) = laws.get_ok k s in
        elim (Option-cases v) [
          | inl q ↦
              let missing : d.get k s ≡ ok none = g ∙ ap (λ o. ok o) q in
              cc (subst (λ r. found r ≡ err e) missing h)
          | inr (b, q) ↦
              let there : d.get k s ≡ ok (some b) = g ∙ ap (λ o. ok o) q in
              absurd (cc (subst (λ r. found r ≡ err e) there h))
        ]

    found_if :
        (c : Bool) (v : Bytes) (r : Result d.Error (Option Bytes))
        → found (if c then ok (some v) else r) ≡ (if c then ok v else found r)
    unfolding found
    found_if true v r = refl
    found_if false v r = refl

    get_put :
        (s : d.Db) (k j v : Bytes)
        → sled_get (sled_put s k v).1 j ≡ (if bytes_eq k j then ok v else sled_get s j)
    unfolding sled_get
    get_put s k j v =
        ap (λ p. found (d.get j p.1)) (put_done s k v)
        ∙ ap found (laws.get-flush j (d.insert k v s).1 ∙ laws.get-insert k v j s)
        ∙ found_if (bytes_eq k j) v (d.get j s)

    -- On a database of `sled` that works, `SledKv` keeps the laws of the key-value interface, which
    -- the theorems on the chain store and the chain state rest on.
    pub sled_kv-KvLaws : KvLaws sled_kv
    sled_kv-KvLaws = record {
      put_ok = λ s k v. ap (λ p. p.0) (put_done s k v);
      has_get = has_found;
      get_absent = absent;
      get-put = get_put;
    }
