-- ===== src/Chain/Placed.antt =====
-- `ingest_block` and the block that it is given.
use egg_project.Prelude.{
  ℕ, ◌≡◌, refl, sym, ap, ◌∙◌, subst, Bool, true, false, not, Result-cases, ok, inl, inr, bytes_eq,
  bytes_eq_iff, Bool-cases, ◌==◌,
}
use egg_project.Types.{Hash256, Block}
use egg_project.Canonical.Blocks.{encode_block}
use egg_project.Exec.{◌>>=◌, ◌>>◌}
use egg_project.Exec.Rules.{Ensures, Ensures-bind, Ensures-then, Ensures-both}
use egg_project.Kv.{KvStore, KvLaws}
use egg_project.Crypto.Hashing.{Blake3, header_id, pow_valid}
use egg_project.Store.Keys.{k_block}
use egg_project.Store.Ops.{put, put_block, has_block, has_header, get_header}
use egg_project.Store.Frames.{has_by_get, get_same}
use egg_project.Chain.Defs.{
  ChainState, Run, asks, writes, branch, fails, returns, self, invalid_pow, header_mismatch,
  header_eq, already_known, ensure_block_meta_from_header,
}
use egg_project.Chain.Ingest.{
  genesis_again, ensure_child, connect_block, ingest_known_header, ingest_new_header, store_block,
  ingest_block,
}
use egg_project.Chain.Keeps.{
  Lawful, given-Keeps, header_write, writes-Keeps, asks-Keeps, Keeps, then-Keeps,
}
use egg_project.Chain.Still.{index_header-Keeps, ensure_child-Keeps, ensure_block_meta-Keeps}
use egg_project.Chain.Ingested.{connect_block-Keeps}
use egg_project.Chain.Lasting.{Lasting, Lasting-Lawful, moved-Lasting}

module _ (kv : KvStore) where
  open kv use {State}

  -- The store holds a block under the id.
  abbrev pub HasBlock : ChainState State → Hash256 → Type 0
  HasBlock st id = kv.has st.store (k_block id) ≡ ok true

module _ (kv : KvStore) (laws : KvLaws kv) where
  open kv use {State}

  abbrev R : ChainState State → ChainState State → Type 0
  R = Lasting kv

  abbrev L : Lawful kv R
  L = Lasting-Lawful kv laws

  -- A method that leaves the block in the store when it succeeds.
  record Places (id : Hash256) {A : Type 0} (m : Run kv A) : Type 0 where
    places :
        (st : ChainState State)
        → HasBlock kv st st.meta.genesis_id
        → Ensures (λ _ x. HasBlock kv x id) (λ _. Unit {0}) (m st)

  module _ (id : Hash256) {A : Type 0} where
    fails-Places : (e : _) → Places id (fails kv {A = A} e)
    unfolding fails
    fails-Places e = record { places = λ st g. tt }

    branch-Places :
        (b : Bool) (m n : Run kv A)
        → (b ≡ true → Places id m)
        → (b ≡ false → Places id n)
        → Places id (branch kv b m n)
    unfolding branch
    branch-Places true m n hm hn = hm refl
    branch-Places false m n hm hn = hn refl

  module _ (id : Hash256) {A B : Type 0} where
    -- The block is there, and what follows loses nothing.
    kept_then :
        (m : Run kv A) (n : Run kv B) → Places id m → Keeps kv (Lasting kv) n → Places id (m >> n)
    kept_then m n hm hn = record {
      places = λ st g.
          Ensures-then (λ _ x. HasBlock kv x id) (λ _. Unit {0}) (λ _ x. HasBlock kv x id) m n st
            (hm.places st g)
            (λ a x h.
              Ensures-both (λ _ y. HasBlock kv y id) (λ _. Unit {0}) (n x)
                (λ b. (hn.keeps x).0 (k_block id) h) tt);
    }

    -- The block is put behind calls that lose nothing.
    later_bind :
        (m : Run kv A) (f : A → Run kv B)
        → Keeps kv (Lasting kv) m
        → ((a : A) → Places id (f a))
        → Places id (m >>= f)
    later_bind m f hm hf = record {
      places = λ st g.
          Ensures-bind (λ _ x. HasBlock kv x x.meta.genesis_id) (λ _. Unit {0})
            (λ _ x. HasBlock kv x id) m f st
            (Ensures-both (λ _ x. HasBlock kv x x.meta.genesis_id) (λ _. Unit {0}) (m st)
              (λ a.
                subst (λ mt. HasBlock kv (m st).1 mt.genesis_id) (sym (hm.keeps st).1)
                  ((hm.keeps st).0 (k_block st.meta.genesis_id) g))
              tt)
            (λ a x h. (hf a).places x h);
    }

    later_then :
        (m : Run kv A) (n : Run kv B) → Keeps kv (Lasting kv) m → Places id n → Places id (m >> n)
    unfolding ◌>>◌
    later_then m n hm hn = later_bind m (λ _. n) hm (λ _. hn)

  put_block-Places : (id : Hash256) (b : Block) → Places id (writes kv (put_block kv id b))
  unfolding writes put_block put
  put_block-Places id b = record {
    places = λ st g.
        Ensures-both (λ _ x. HasBlock kv x id) (λ _. Unit {0}) (writes kv (put_block kv id b) st)
          (λ a.
            has_by_get kv laws _ (k_block id)
            ∙ rw (get_same kv laws st.store (k_block id) (encode_block b)))
          tt;
  }

  -- A test that finds the block.
  asks_then :
      {A : Type 0} (id : Hash256) (f : Bool → Run kv A)
      → ((b : Bool) (st : ChainState State)
          → HasBlock kv st st.meta.genesis_id
          → (b ≡ true → HasBlock kv st id)
          → Ensures (λ _ x. HasBlock kv x id) (λ _. Unit {0}) (f b st))
      → Places id (asks kv (has_block kv id) >>= f)
  asks_then id f h = record {
    places = λ st g.
        Ensures-bind (λ b x. HasBlock kv x x.meta.genesis_id × (b ≡ true → HasBlock kv x id))
          (λ _. Unit {0}) (λ _ x. HasBlock kv x id) (asks kv (has_block kv id)) f st (found st g)
          (λ b x w. h b x w.0 w.1);
  }
    where
      found :
          (st : ChainState State)
          → HasBlock kv st st.meta.genesis_id
          → Ensures
              (λ b x. HasBlock kv x x.meta.genesis_id × (b ≡ true → HasBlock kv x id))
              (λ _. Unit {0})
              (asks kv (has_block kv id) st)
      found st g = elim (Result-cases (kv.has st.store (k_block id))) [
        | inl (b, q) ↦ unfold asks has_block in rw q (g, λ e. q ∙ ap (λ c. ok c) e)
        | inr (e, q) ↦ unfold asks has_block in rw q tt
      ]

  genesis-Places : {A : Type 0} (id : Hash256) (a : A) → Places id (genesis_again kv id a)
  unfolding genesis_again self branch fails returns ◌>>=◌
  genesis-Places id a = record {
    places = λ st g. elim (Bool-cases (bytes_eq id st.meta.genesis_id)) [
      | inl e ↦ rw e (subst (HasBlock kv st) (sym ((bytes_eq_iff id st.meta.genesis_id).0 e)) g)
      | inr e ↦ rw e tt
    ];
  }

  module _ (fuel : ℕ) (id : Hash256) where
    -- The block of a known header, stored and connected.
    fresh-Places :
        (b : Block)
        → Places id (
            asks kv (get_header kv id) >>= λ stored_hdr.
            branch kv (not (header_eq stored_hdr b.header)) (fails kv (header_mismatch id)) (
              writes kv (put_block kv id b)
              >> (ensure_block_meta_from_header kv id b.header
                  >> (ensure_child kv fuel b.header.parent id
                      >> connect_block kv fuel id b.header))))
    fresh-Places b = later_bind id _ _ (asks-Keeps kv R L (get_header kv id)) λ stored.
        branch-Places id (not (header_eq stored b.header)) _ _
          (λ _. fails-Places id (header_mismatch id))
          (λ _. kept_then id _ _ (put_block-Places id b) (
            then-Keeps kv R L _ _ (ensure_block_meta-Keeps kv R L id b.header) (
              then-Keeps kv R L _ _ (ensure_child-Keeps kv R L fuel b.header.parent id)
                (connect_block-Keeps kv R L (moved-Lasting kv laws) fuel id b.header))))

    known_or :
        {A : Type 0} (a : A) (m : Run kv A) (known : Bool) (st : ChainState State)
        → Places id m
        → HasBlock kv st st.meta.genesis_id
        → (known ≡ true → HasBlock kv st id)
        → Ensures (λ _ x. HasBlock kv x id) (λ _. Unit {0}) (branch kv known (returns kv a) m st)
    unfolding branch returns
    known_or a m true st p g k = k refl
    known_or a m false st p g k = p.places st g

    known-Places : (b : Block) → Places id (ingest_known_header kv fuel id b)
    unfolding ingest_known_header
    known-Places b =
        asks_then id _
          (λ known st g k. known_or (id, already_known) _ known st (fresh-Places b) g k)

    new-Places : (b : Block) → Places id (ingest_new_header kv fuel id b)
    unfolding ingest_new_header
    new-Places b = later_then id _ _ (writes-Keeps kv R L _ (header_write id b.header)) (
        kept_then id _ _ (put_block-Places id b) (
          then-Keeps kv R L _ _ (index_header-Keeps kv R L id b.header)
            (connect_block-Keeps kv R L (moved-Lasting kv laws) fuel id b.header)))

    store_block-Places : (b : Block) → Places id (store_block kv fuel id b)
    unfolding store_block
    store_block-Places b =
        later_bind id _ _ (asks-Keeps kv R L (has_header kv id))
          λ known. branch-Places id known _ _ (λ _. known-Places b) (λ _. new-Places b)

  -- On a store that keeps the laws and holds the genesis block: where `ingest_block` succeeds, the
  -- store holds a block under the id of the header, whatever the outcome.
  pub ingest_block_places :
      (fuel : ℕ) (b3 : Blake3) (b : Block) (st : ChainState State)
      → HasBlock kv st st.meta.genesis_id
      → Ensures
          (λ _ x. HasBlock kv x (header_id b3 b.header))
          (λ _. Unit {0})
          (ingest_block kv fuel b3 b st)
  unfolding ingest_block
  ingest_block_places fuel b3 b =
      (later_then (header_id b3 b.header) _ _ (given-Keeps kv R L _) (
        branch-Places (header_id b3 b.header) (not (pow_valid b3 b.header)) _ _
          (λ _. fails-Places (header_id b3 b.header) invalid_pow)
          (λ _.
            branch-Places (header_id b3 b.header) (b.header.height == 0) _ _
              (λ _. genesis-Places (header_id b3 b.header) already_known)
              (λ _. store_block-Places fuel (header_id b3 b.header) b)))).places
