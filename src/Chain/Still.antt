-- ===== src/Chain/Still.antt =====
-- The methods that never assign the tip, and a relation of states.
use egg_project.Prelude.{
  ℕ, zero, suc, Bool, true, false, not, Option, none, some, List, [], ◌∷◌, bytes_eq, ◌==◌,
}
use egg_project.Types.{Hash256, Height, BlockHeader}
use egg_project.Kv.{KvStore}
use egg_project.Crypto.Hashing.{Blake3, pow_valid, header_id}
use egg_project.Store.Records.{ChainTip, BlockMeta}
use egg_project.Store.Ops.{
  get_block_meta, has_header, get_header, has_block, get_block, get_children, any_eq,
}
use egg_project.Chain.Defs.{
  ChainState, meta_of, Run, meta_or_put, must_header, must_block, must_block_meta,
  ensure_block_meta_from_header, missing_header, missing_block, missing_block_meta, out_of_fuel,
  invalid_pow, height_not_parent_plus_one, genesis_id_mismatch, header_already_known,
  header_stored_orphan, header_stored_connected,
}
use egg_project.Chain.Reorg.{climb, meet, path_from, write_path, reorg_canonical}
use egg_project.Chain.Connect.{lacks_data}
use egg_project.Chain.Ingest.{
  genesis_again, index_header, check_height, ensure_child, store_header, ingest_header,
}
use egg_project.Chain.Keeps.{
  Lawful, meta_write, canon_write, child_write, header_write, Keeps, asks-Keeps, writes-Keeps,
  given_some-Keeps, fails-Keeps, returns-Keeps, branch-Keeps, self-Keeps, bind-Keeps, then-Keeps,
}

module _ (kv : KvStore) (R : ChainState kv.State → ChainState kv.State → Type 0)
    (L : Lawful kv R) where
  open kv use {State}

  meta_or_put-Keeps :
      (id : Hash256) (h : BlockHeader) (o : Option BlockMeta) → Keeps kv R (meta_or_put kv id h o)
  unfolding meta_or_put
  meta_or_put-Keeps id h (some m) = returns-Keeps kv R L m
  meta_or_put-Keeps id h none =
      then-Keeps kv R L _ _ (writes-Keeps kv R L _ (meta_write id (meta_of h)))
        (returns-Keeps kv R L (meta_of h))

  pub ensure_block_meta-Keeps :
      (id : Hash256) (h : BlockHeader) → Keeps kv R (ensure_block_meta_from_header kv id h)
  unfolding ensure_block_meta_from_header
  ensure_block_meta-Keeps id h =
      bind-Keeps kv R L _ _ (asks-Keeps kv R L (get_block_meta kv id)) (meta_or_put-Keeps id h)

  pub must_block_meta-Keeps : (id : Hash256) → Keeps kv R (must_block_meta kv id)
  unfolding must_block_meta
  must_block_meta-Keeps id =
      bind-Keeps kv R L _ _ (asks-Keeps kv R L (get_block_meta kv id))
        (given_some-Keeps kv R L (missing_block_meta id))

  pub must_header-Keeps : (id : Hash256) → Keeps kv R (must_header kv id)
  unfolding must_header
  must_header-Keeps id = bind-Keeps kv R L _ _ (asks-Keeps kv R L (has_header kv id)) λ found.
      branch-Keeps kv R L (not found) _ _ (fails-Keeps kv R L (missing_header id))
        (asks-Keeps kv R L (get_header kv id))

  pub must_block-Keeps : (id : Hash256) → Keeps kv R (must_block kv id)
  unfolding must_block
  must_block-Keeps id = bind-Keeps kv R L _ _ (asks-Keeps kv R L (has_block kv id)) λ found.
      branch-Keeps kv R L (not found) _ _ (fails-Keeps kv R L (missing_block id))
        (asks-Keeps kv R L (get_block kv id))

  climb-Keeps : (n : ℕ) (a : Hash256) (ha : ℕ) → Keeps kv R (climb kv n a ha)
  unfolding climb
  climb-Keeps zero a ha = returns-Keeps kv R L _
  climb-Keeps (suc n) a ha =
      bind-Keeps kv R L _ _ (must_block_meta-Keeps a) λ m. climb-Keeps n m.parent _

  pub either-Keeps :
      {A : Type 0} (t : Bool) (m n : Run kv A)
      → Keeps kv R m
      → Keeps kv R n
      → Keeps kv R (elim t [ true ↦ m | false ↦ n ])
  either-Keeps true m n hm hn = hm
  either-Keeps false m n hm hn = hn

  meet_step :
      (n : ℕ)
      → ((x y : Hash256) (h : ℕ) → Keeps kv R (meet kv n x y h))
      → (a b : Hash256) (h : ℕ) → Keeps kv R (meet kv (suc n) a b h)
  unfolding meet
  meet_step n rec a b h = either-Keeps (bytes_eq a b) _ _ (returns-Keeps kv R L h) (
      bind-Keeps kv R L _ _ (must_block_meta-Keeps a)
        λ ma. bind-Keeps kv R L _ _ (must_block_meta-Keeps b) λ mb. rec ma.parent mb.parent _)

  meet-Keeps : (n : ℕ) (a b : Hash256) (h : ℕ) → Keeps kv R (meet kv n a b h)
  meet-Keeps zero a b h =
      unfold meet in
      either-Keeps (bytes_eq a b) _ _ (returns-Keeps kv R L h) (fails-Keeps kv R L out_of_fuel)
  meet-Keeps (suc n) a b h = meet_step n (meet-Keeps n) a b h

  path_step :
      (n : ℕ)
      → ((x : Hash256) (h : Height) (q : List (Height × Hash256))
          → Keeps kv R (path_from kv n x h q))
      → (c : Hash256) (h : Height) (p : List (Height × Hash256))
      → Keeps kv R (path_from kv (suc n) c h p)
  unfolding path_from
  path_step n rec c h p =
      bind-Keeps kv R L _ _ (must_block_meta-Keeps c)
        λ m. either-Keeps (m.height == h) _ _ (returns-Keeps kv R L p) (rec m.parent h _)

  path_from-Keeps :
      (n : ℕ) (c : Hash256) (h : Height) (p : List (Height × Hash256))
      → Keeps kv R (path_from kv n c h p)
  path_from-Keeps zero c h p = unfold path_from in fails-Keeps kv R L out_of_fuel
  path_from-Keeps (suc n) c h p = path_step n (path_from-Keeps n) c h p

  write_path-Keeps : (p : List (Height × Hash256)) → Keeps kv R (write_path kv p)
  unfolding write_path
  write_path-Keeps [] = returns-Keeps kv R L tt
  write_path-Keeps ((h, x) ∷ p) =
      then-Keeps kv R L _ _ (writes-Keeps kv R L _ (canon_write h x)) (write_path-Keeps p)

  pub reorg_canonical-Keeps :
      (fuel : ℕ) (old new : ChainTip) → Keeps kv R (reorg_canonical kv fuel old new)
  unfolding reorg_canonical
  reorg_canonical-Keeps fuel old new =
      bind-Keeps kv R L _ _ (climb-Keeps _ new.hash new.height) λ top.
        bind-Keeps kv R L _ _ (climb-Keeps _ old.hash old.height) λ low.
          bind-Keeps kv R L _ _ (meet-Keeps fuel top.a low.a top.ha)
            λ h. bind-Keeps kv R L _ _ (path_from-Keeps fuel new.hash h []) write_path-Keeps

  pub lacks_data-Keeps : (fuel : ℕ) (c : Hash256) → Keeps kv R (lacks_data kv fuel c)
  unfolding lacks_data
  lacks_data-Keeps fuel c = bind-Keeps kv R L _ _ (asks-Keeps kv R L (has_header kv c)) λ known.
      branch-Keeps kv R L (not known) _ _ (returns-Keeps kv R L true) (
        bind-Keeps kv R L _ _ (asks-Keeps kv R L (has_block kv c))
          λ b. returns-Keeps kv R L (not b))

  pub genesis_again-Keeps : {A : Type 0} (id : Hash256) (a : A) → Keeps kv R (genesis_again kv id a)
  unfolding genesis_again
  genesis_again-Keeps id a = bind-Keeps kv R L _ _ (self-Keeps kv R L) λ st.
      branch-Keeps kv R L (not (bytes_eq id st.meta.genesis_id)) _ _
        (fails-Keeps kv R L (genesis_id_mismatch st.meta.genesis_id id))
        (returns-Keeps kv R L (id, a))

  pub index_header-Keeps : (id : Hash256) (h : BlockHeader) → Keeps kv R (index_header kv id h)
  unfolding index_header
  index_header-Keeps id h =
      then-Keeps kv R L _ _ (writes-Keeps kv R L _ (meta_write id (meta_of h)))
        (writes-Keeps kv R L _ (child_write h.parent id))

  pub check_height-Keeps : (h : BlockHeader) → Keeps kv R (check_height kv h)
  unfolding check_height
  check_height-Keeps h = bind-Keeps kv R L _ _ (asks-Keeps kv R L (get_header kv h.parent)) λ ph.
      bind-Keeps kv R L _ _ (ensure_block_meta-Keeps h.parent ph) λ pm.
        branch-Keeps kv R L _ _ _
          (fails-Keeps kv R L (height_not_parent_plus_one pm.height h.height))
          (returns-Keeps kv R L tt)

  pub ensure_child-Keeps : (fuel : ℕ) (p id : Hash256) → Keeps kv R (ensure_child kv fuel p id)
  unfolding ensure_child
  ensure_child-Keeps fuel p id = bind-Keeps kv R L _ _ (asks-Keeps kv R L (get_children kv p)) λ cs.
      branch-Keeps kv R L (not (any_eq id cs)) _ _ (writes-Keeps kv R L _ (child_write p id))
        (returns-Keeps kv R L tt)

  store_header-Keeps : (id : Hash256) (h : BlockHeader) → Keeps kv R (store_header kv id h)
  unfolding store_header
  store_header-Keeps id h = then-Keeps kv R L _ _ (writes-Keeps kv R L _ (header_write id h)) (
      then-Keeps kv R L _ _ (index_header-Keeps id h) (
        bind-Keeps kv R L _ _ (asks-Keeps kv R L (has_header kv h.parent)) λ known.
          branch-Keeps kv R L (not known) _ _ (returns-Keeps kv R L (id, header_stored_orphan)) (
            then-Keeps kv R L _ _ (check_height-Keeps h)
              (returns-Keeps kv R L (id, header_stored_connected)))))

  pub ingest_header-Keeps : (b3 : Blake3) (h : BlockHeader) → Keeps kv R (ingest_header kv b3 h)
  unfolding ingest_header
  ingest_header-Keeps b3 h =
      branch-Keeps kv R L (not (pow_valid b3 h)) _ _ (fails-Keeps kv R L invalid_pow) (
        branch-Keeps kv R L (h.height == 0) _ _
          (genesis_again-Keeps (header_id b3 h) header_already_known)
          (bind-Keeps kv R L _ _ (asks-Keeps kv R L (has_header kv (header_id b3 h))) λ known.
            branch-Keeps kv R L known _ _
              (returns-Keeps kv R L (header_id b3 h, header_already_known))
              (store_header-Keeps (header_id b3 h) h)))
