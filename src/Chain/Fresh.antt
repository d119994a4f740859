-- ===== src/Chain/Fresh.antt =====
-- `open_or_init` on a store that holds nothing yet.
use egg_project.Prelude.{
  ℕ, ◌^◌, ◌<◌, ◌≡◌, refl, ◌∙◌, subst, true, none, some, [], ◌++◌, ok, bytes_eq_refl, ==_iff, length,
  arith,
}
use egg_project.Bytes.{Bytes}
use egg_project.Types.{Hash256, BlockHeader, Block, ChainSpec, IsSpec, IsHeader, IsHash, IsU32}
use egg_project.Canonical.Spec.{decode_chainspec-encode_chainspec}
use egg_project.Exec.{◌>>=◌, ◌>>◌}
use egg_project.Kv.{KvStore, KvLaws}
use egg_project.Crypto.Hashing.{
  Blake3, header_id, hash_chainspec, hash_domain, domain_chainspec, header_id-IsHash,
}
use egg_project.Genesis.{genesis_fields, genesis_header, genesis_id, validate_chainspec}
use egg_project.Store.Records.{ChainMeta}
use egg_project.Store.Ops.{
  put, set_meta, put_header, put_block, put_block_meta, set_canon_hash, set_tip, get_tip,
}
use egg_project.Store.View.{ChainView, Implements, empty_view, update, update_at}
use egg_project.Store.Refines.{
  set_meta-Implements, put_header-Implements, put_block-Implements, put_block_meta-Implements,
  set_canon_hash-Implements, set_tip-Implements,
}
use egg_project.Store.Frames.{put_done}
use egg_project.Chain.Defs.{ChainState, meta_of, meta_eq, Run, writes, branch, asks, self, returns}
use egg_project.Genesis.Laws.{genesis_fields-IsHeader}
use egg_project.Chain.Open.{
  reopen, bootstrap_indexes_from_tip, expected_meta, with_expected, opened, write_genesis,
  open_or_init,
}

-- A store with the genesis block, as the tip and on the canonical chain.
abbrev pub genesis_view : ChainMeta → BlockHeader → ChainView
genesis_view m hdr =
    let id = m.genesis_id in
    record {
      header = update empty_view.header id (some hdr);
      block = update empty_view.block id (some (record { header = hdr; txs = [] }));
      tip = some (record { height = 0; hash = id });
      meta = some m;
      block_meta = update empty_view.block_meta id (some (meta_of hdr));
      children = empty_view.children;
      canon = update_at empty_view.canon 0 (some id);
    }

module _ (kv : KvStore) (laws : KvLaws kv) (m : ChainMeta) (hdr : BlockHeader) (s : kv.State) where
  open kv use {State}

  abbrev genesis_of : BlockHeader → Block
  genesis_of h = record { header = h; txs = [] }

  -- The stores that the six writes leave.
  abbrev s1 : State
  s1 = (set_meta kv m s).1

  abbrev s2 : State
  s2 = (put_header kv m.genesis_id hdr s1).1

  abbrev s3 : State
  s3 = (put_block kv m.genesis_id (genesis_of hdr) s2).1

  abbrev s4 : State
  s4 = (put_block_meta kv m.genesis_id (meta_of hdr) s3).1

  abbrev s5 : State
  s5 = (set_canon_hash kv 0 m.genesis_id s4).1

  abbrev pub written : State
  written = (set_tip kv (record { height = 0; hash = m.genesis_id }) s5).1

  pub written-Implements :
      Implements kv s empty_view
      → IsU32 m.chain_id
      → IsHash m.genesis_id
      → IsHash m.chainspec_hash
      → IsHeader hdr
      → Implements kv written (genesis_view m hdr)
  written-Implements i0 u g c h =
      let i1 = set_meta-Implements kv laws s _ i0 m u g c in
      let i2 = put_header-Implements kv laws s1 _ i1 m.genesis_id hdr h in
      let i3 =
        put_block-Implements kv laws s2 _ i2 m.genesis_id (genesis_of hdr)
          (record { header_ok = h; txs_ok = tt }) tt (omega arith) in
      let i4 =
        put_block_meta-Implements kv laws s3 _ i3 m.genesis_id (meta_of hdr) h.parent_ok
          h.height_ok in
      let i5 = set_canon_hash-Implements kv laws s4 _ i4 0 m.genesis_id (omega arith) g in
      set_tip-Implements kv laws s5 _ i5 (record { height = 0; hash = m.genesis_id }) (omega arith)
        g

module _ (kv : KvStore) (laws : KvLaws kv) where
  open kv use {State}

  abbrev stored : ChainState State → State → ChainState State
  stored st s = record st { store = s }

  put_run :
      (k b : Bytes) (st : ChainState State)
      → writes kv (put kv k b) st ≡ (ok tt, stored st (put kv k b st.store).1)
  unfolding writes
  put_run k b st = rw (put_done kv laws k b st.store)

  pub put_then :
      {A : Type 0} (k b : Bytes) (n : Run kv A) (st : ChainState State)
      → (writes kv (put kv k b) >> n) st ≡ n (stored st (put kv k b st.store).1)
  unfolding ◌>>=◌ ◌>>◌
  put_then k b n st = rw (put_run k b st)

  -- The six writes of the genesis block succeed.
  run_genesis :
      (b3 : Blake3) (fuel : ℕ) (m : ChainMeta) (hdr : BlockHeader) (st : ChainState State)
      → header_id b3 hdr ≡ m.genesis_id
      → write_genesis kv b3 fuel m hdr st ≡ (ok tt, stored st (written kv laws m hdr st.store))
  unfolding write_genesis branch set_meta put_header put_block put_block_meta set_canon_hash set_tip
  run_genesis b3 fuel m hdr st q =
      rw (q, bytes_eq_refl m.genesis_id)
        (put_then _ _ _ st
          ∙ put_then _ _ _ _
          ∙ put_then _ _ _ _
          ∙ put_then _ _ _ _
          ∙ put_then _ _ _ _
          ∙ put_run _ _ _)

  module _ (b3 : Blake3) (fuel : ℕ) (spec : ChainSpec) where
    abbrev genesis_hash : Hash256
    genesis_hash = header_id b3 (genesis_fields spec)

    -- What the specification makes of the chain's meta.
    abbrev meta_for : Hash256 → ChainMeta
    meta_for h = record {
      chain_id = spec.chain.chain_id;
      genesis_id = genesis_hash;
      chainspec_hash = h;
    }

    abbrev state_for : ChainMeta → State → ChainState State
    state_for m s = record {
      spec = spec;
      tip = record { height = 0; hash = m.genesis_id };
      meta = m;
      store = s;
    }

    header_for : validate_chainspec spec ≡ ok tt → genesis_header spec ≡ ok (genesis_fields spec)
    unfolding genesis_header
    header_for e = rw e

    expected_for :
        validate_chainspec spec ≡ ok tt
        → IsSpec spec
        → length spec.chain.chain_name < 2 ^ 32
        → (h : Hash256) × ((expected_meta b3 spec ≡ ok (meta_for h)) × IsHash h)
    unfolding expected_meta genesis_id hash_chainspec hash_domain
    expected_for e v n =
        let (bytes, enc, back) = decode_chainspec-encode_chainspec spec [] v n in
        (
          b3.digest (domain_chainspec ++ bytes),
          (rw (header_for e, enc), b3.digest_ok (domain_chainspec ++ bytes)),
        )

    fresh_run :
        (m : ChainMeta) (s : State)
        → validate_chainspec spec ≡ ok tt
        → expected_meta b3 spec ≡ ok m
        → genesis_hash ≡ m.genesis_id
        → get_tip kv s ≡ ok none
        → open_or_init kv b3 fuel spec s ≡ (
          ok (state_for m (written kv laws m (genesis_fields spec) s)),
          written kv laws m (genesis_fields spec) s,
        )
    unfolding open_or_init
    fresh_run m s e x g t = rw (
      e,
      x,
      with_expected,
      t,
      opened,
      header_for e,
      run_genesis b3 fuel m (genesis_fields spec) (state_for m s) g,
    )

    -- On a store that keeps the laws and holds nothing, a specification that is accepted, with a name shorter than
    -- 2 ^ 32 bytes, is opened: the tip is the genesis block at height 0, and the store holds that
    -- block, its meta, its canonical place and nothing else.
    pub open_or_init_fresh :
        (s : State)
        → Implements kv s empty_view
        → IsSpec spec
        → length spec.chain.chain_name < 2 ^ 32
        → validate_chainspec spec ≡ ok tt
        → (st : ChainState State) × (open_or_init kv b3 fuel spec s ≡ (ok st, st.store))
          × (st.spec ≡ spec)
          × (st.tip ≡ record { height = 0; hash = header_id b3 (genesis_fields spec) })
          × (st.meta.genesis_id ≡ header_id b3 (genesis_fields spec))
          × Implements kv st.store (genesis_view st.meta (genesis_fields spec))
    open_or_init_fresh s i v n e =
        let (h, (x, hash_ok)) = expected_for e v n in
        (
          state_for (meta_for h) (written kv laws (meta_for h) (genesis_fields spec) s),
          fresh_run (meta_for h) s e x refl i.tip_at,
          refl,
          refl,
          refl,
          written-Implements kv laws (meta_for h) (genesis_fields spec) s i v.id_ok
              (header_id-IsHash b3 (genesis_fields spec)) hash_ok (genesis_fields-IsHeader spec v),
        )

    meta_eq_refl : (m : ChainMeta) → meta_eq m m ≡ true
    unfolding meta_eq
    meta_eq_refl m = rw (
      bytes_eq_refl m.genesis_id,
      bytes_eq_refl m.chainspec_hash,
      (==_iff m.chain_id m.chain_id).1 refl,
    )

    no_bootstrap :
        (m : ChainMeta) (s : State)
        → Implements kv s (genesis_view m (genesis_fields spec))
        → reopen kv b3 fuel m (some m) (state_for m s) ≡ (ok tt, state_for m s)
    unfolding reopen branch bootstrap_indexes_from_tip asks self returns ◌>>=◌
    no_bootstrap m s i = rw (
      meta_eq_refl m,
      i.block_meta_at m.genesis_id,
      bytes_eq_refl m.genesis_id,
      i.canon_at 0 (omega arith),
    )

    reopen_run :
        (m : ChainMeta) (s : State)
        → validate_chainspec spec ≡ ok tt
        → expected_meta b3 spec ≡ ok m
        → Implements kv s (genesis_view m (genesis_fields spec))
        → open_or_init kv b3 fuel spec s ≡ (ok (state_for m s), s)
    unfolding open_or_init
    reopen_run m s e x i = rw (e, x, with_expected, i.tip_at, opened, i.meta_at, no_bootstrap m s i)

    -- On a store that keeps the laws, with an accepted specification whose name is shorter than
    -- 2 ^ 32 bytes: opening what a first opening of an empty store has set up changes nothing in it, and gives the same state
    -- again.
    pub open_or_init_again :
        (s : State) (st : ChainState State)
        → Implements kv s empty_view
        → IsSpec spec
        → length spec.chain.chain_name < 2 ^ 32
        → validate_chainspec spec ≡ ok tt
        → (open_or_init kv b3 fuel spec s).0 ≡ ok st
        → open_or_init kv b3 fuel spec st.store ≡ (ok st, st.store)
    open_or_init_again s st i v n e q =
        let (h, (x, hash_ok)) = expected_for e v n in
        let m = meta_for h in
        let t = written kv laws m (genesis_fields spec) s in
        let same : state_for m t ≡ st = cc (fresh_run m s e x refl i.tip_at, q) in
        subst (λ y. open_or_init kv b3 fuel spec y.store ≡ (ok y, y.store)) same
          (reopen_run m t e x (
            written-Implements kv laws m (genesis_fields spec) s i v.id_ok
              (header_id-IsHash b3 (genesis_fields spec)) hash_ok (genesis_fields-IsHeader spec v)))
