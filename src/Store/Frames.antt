-- ===== src/Store/Frames.antt =====
-- A read depends on the bytes under its own key only, and a write changes no other key.
use egg_project.Prelude.{
  ◌≡◌, refl, ◌∙◌, Bool, true, false, not, Option, none, some, List, [], Result, ok, err, map_err,
  and_then, bytes_eq, bytes_eq_refl, if◌then◌else◌,
}
use egg_project.Bytes.{Bytes}
use egg_project.Types.{Hash256}
use egg_project.Kv.{KvStore, KvLaws, DbError}
use egg_project.Store.Records.{StoreError, db}
use egg_project.Store.Ops.{put, get_optional}

module _ (kv : KvStore) (laws : KvLaws kv) where
  open kv use {State}

  -- The answer of `has`, and of the two kinds of optional reads, from that of `get`.
  abbrev pub present : Result DbError Bytes → Bool
  present (ok v) = true
  present (err e) = false

  pub has_by_get : (s : State) (k : Bytes) → kv.has s k ≡ ok (present (kv.get s k))
  has_by_get s k = laws.has_get s k ∙ cases (kv.get s k)
    where
      cases :
          (r : Result DbError Bytes)
          → ◌≡◌ {A = Result DbError Bool}
              (elim r [ ok _ ↦ ok true | err _ ↦ ok false ])
              (ok (present r))
      cases (ok v) = refl
      cases (err e) = refl

  abbrev pub optional :
      {A : Type 0}
      → (Bytes → Result StoreError A)
      → Result DbError Bytes
      → Result StoreError (Option A)
  optional dec (ok v) = and_then (dec v) λ a. ok (some a)
  optional dec (err e) = ok none

  pub get_optional_by_get :
      {A : Type 0} (k : Bytes) (dec : Bytes → Result StoreError A) (s : State)
      → get_optional kv k dec s ≡ optional dec (kv.get s k)
  unfolding get_optional
  get_optional_by_get k dec s = rw (has_by_get s k) (cases (kv.get s k))
    where
      cases :
          (r : Result DbError Bytes)
          → (if not (present r)
              then ok none
              else and_then (map_err db r) λ val. and_then (dec val) λ a. ok (some a))
            ≡ optional dec r
      cases (ok v) = refl
      cases (err e) = refl

  abbrev pub listed :
      (Bytes → Result StoreError (List Hash256))
      → Result DbError Bytes
      → Result StoreError (List Hash256)
  listed dec (ok v) = dec v
  listed dec (err e) = ok []

  pub put_done : (k v : Bytes) (s : State) → (put kv k v s).0 ≡ ok tt
  unfolding put
  put_done k v s = rw (laws.put_ok s k v)

  pub get_same : (s : State) (k v : Bytes) → kv.get (kv.put s k v).1 k ≡ ok v
  get_same s k v = laws.get-put s k k v ∙ rw (bytes_eq_refl k)

  pub get_other :
      (s : State) (k j v : Bytes) → bytes_eq k j ≡ false → kv.get (kv.put s k v).1 j ≡ kv.get s j
  get_other s k j v h = laws.get-put s k j v ∙ rw h
