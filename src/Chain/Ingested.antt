-- ===== src/Chain/Ingested.antt =====
-- The methods that move the tip through `maybe_set_tip`, and a relation of states.
use egg_project.Prelude.{ℕ, zero, suc, true, false, not, List, [], ◌∷◌, ◌==◌}
use egg_project.Types.{Hash256, Height, BlockHeader, Block}
use egg_project.Exec.{◌>>=◌, ◌>>◌}
use egg_project.Kv.{KvStore}
use egg_project.Crypto.Hashing.{Blake3, pow_valid, header_id}
use egg_project.Store.Ops.{has_header, has_block, get_header, get_children}
use egg_project.Chain.Defs.{
  ChainState, Run, given, returns, invalid_pow, header_mismatch, already_known, stored_orphan,
  height_not_parent_plus_one, out_of_fuel, ensure_block_meta_from_header,
}
use egg_project.Chain.Reorg.{maybe_set_tip}
use egg_project.Chain.Connect.{
  connect_under, try_connect_child, connect_children, connect_loop, connect_descendants_from,
  queue_if,
}
use egg_project.Chain.Ingest.{
  connect_block, ingest_known_header, ingest_new_header, store_block, ingest_block,
}
use egg_project.Chain.Keeps.{
  Lawful, block_write, header_write, Keeps, asks-Keeps, writes-Keeps, given-Keeps, fails-Keeps,
  returns-Keeps, branch-Keeps, bind-Keeps, then-Keeps,
}
use egg_project.Chain.Still.{
  ensure_block_meta-Keeps, lacks_data-Keeps, genesis_again-Keeps, index_header-Keeps,
  check_height-Keeps, ensure_child-Keeps,
}

module _ (kv : KvStore) (R : ChainState kv.State → ChainState kv.State → Type 0) (L : Lawful kv R)
    (moved : (fuel : ℕ) (x : Hash256) (h : Height) → Keeps kv R (maybe_set_tip kv fuel x h)) where
  open kv use {State}

  -- The rules for this relation.
  bind :
      {A B : Type 0} {m : Run kv A} {f : A → Run kv B}
      → Keeps kv R m
      → ((a : A) → Keeps kv R (f a))
      → Keeps kv R (m >>= f)
  bind = bind-Keeps kv R L _ _

  next :
      {A B : Type 0} {m : Run kv A} {n : Run kv B}
      → Keeps kv R m
      → Keeps kv R n
      → Keeps kv R (m >> n)
  next = then-Keeps kv R L _ _

  pub ensure : (id : Hash256) (h : BlockHeader) → Keeps kv R (ensure_block_meta_from_header kv id h)
  ensure = ensure_block_meta-Keeps kv R L

  module _ (fuel : ℕ) where
    connect_under-Keeps :
        (p c : Hash256) (h : BlockHeader) → Keeps kv R (connect_under kv fuel p c h)
    unfolding connect_under
    connect_under-Keeps p c h = bind (asks-Keeps kv R L (get_header kv p)) λ ph.
        bind (ensure p ph) λ pm. bind (ensure c h) λ cm.
          branch-Keeps kv R L _ _ _
            (fails-Keeps kv R L (height_not_parent_plus_one pm.height h.height))
            (next (moved fuel c cm.height) (returns-Keeps kv R L true))

    try_connect_child-Keeps : (p c : Hash256) → Keeps kv R (try_connect_child kv fuel p c)
    unfolding try_connect_child
    try_connect_child-Keeps p c = bind (lacks_data-Keeps kv R L fuel c) λ lacks.
        branch-Keeps kv R L lacks _ _ (returns-Keeps kv R L false) (
          bind (asks-Keeps kv R L (get_header kv c))
            λ h. branch-Keeps kv R L _ _ _ (returns-Keeps kv R L false) (connect_under-Keeps p c h))

    connect_children-Keeps :
        (p : Hash256) (cs q : List Hash256) → Keeps kv R (connect_children kv fuel p cs q)
    unfolding connect_children
    connect_children-Keeps p [] q = returns-Keeps kv R L q
    connect_children-Keeps p (c ∷ cs) q =
        bind (try_connect_child-Keeps p c) λ b. connect_children-Keeps p cs (queue_if kv fuel b c q)

    connect_loop-Keeps : (steps : ℕ) (q : List Hash256) → Keeps kv R (connect_loop kv fuel steps q)
    unfolding connect_loop
    connect_loop-Keeps zero [] = returns-Keeps kv R L tt
    connect_loop-Keeps (suc steps) [] = returns-Keeps kv R L tt
    connect_loop-Keeps zero (p ∷ q) = fails-Keeps kv R L out_of_fuel
    connect_loop-Keeps (suc steps) (p ∷ q) =
        bind (asks-Keeps kv R L (get_children kv p))
          λ cs. bind (connect_children-Keeps p cs q) (connect_loop-Keeps steps)

    connect_descendants-Keeps :
        (root : Hash256) → Keeps kv R (connect_descendants_from kv fuel root)
    unfolding connect_descendants_from
    connect_descendants-Keeps root = connect_loop-Keeps fuel (root ∷ [])

    pub connect_block-Keeps :
        (id : Hash256) (h : BlockHeader) → Keeps kv R (connect_block kv fuel id h)
    unfolding connect_block
    connect_block-Keeps id h = bind (asks-Keeps kv R L (has_header kv h.parent)) λ known.
        branch-Keeps kv R L _ _ _ (returns-Keeps kv R L (id, stored_orphan)) (
          next (check_height-Keeps kv R L h) (
            bind (moved fuel id h.height)
              λ changed. next (connect_descendants-Keeps id) (returns-Keeps kv R L _)))

    ingest_known_header-Keeps :
        (id : Hash256) (b : Block) → Keeps kv R (ingest_known_header kv fuel id b)
    unfolding ingest_known_header
    ingest_known_header-Keeps id b = bind (asks-Keeps kv R L (has_block kv id)) λ known.
        branch-Keeps kv R L known _ _ (returns-Keeps kv R L (id, already_known)) (
          bind (asks-Keeps kv R L (get_header kv id)) λ stored.
            branch-Keeps kv R L _ _ _ (fails-Keeps kv R L (header_mismatch id)) (
              next (writes-Keeps kv R L _ (block_write id b)) (
                next (ensure id b.header) (
                  next (ensure_child-Keeps kv R L fuel b.header.parent id)
                    (connect_block-Keeps id b.header)))))

    ingest_new_header-Keeps :
        (id : Hash256) (b : Block) → Keeps kv R (ingest_new_header kv fuel id b)
    unfolding ingest_new_header
    ingest_new_header-Keeps id b = next (writes-Keeps kv R L _ (header_write id b.header)) (
        next (writes-Keeps kv R L _ (block_write id b))
          (next (index_header-Keeps kv R L id b.header) (connect_block-Keeps id b.header)))

    store_block-Keeps : (id : Hash256) (b : Block) → Keeps kv R (store_block kv fuel id b)
    unfolding store_block
    store_block-Keeps id b = bind (asks-Keeps kv R L (has_header kv id)) λ known.
        branch-Keeps kv R L known _ _ (ingest_known_header-Keeps id b)
          (ingest_new_header-Keeps id b)

    module _ (b3 : Blake3) where
      pub ingest_block-Keeps : (b : Block) → Keeps kv R (ingest_block kv fuel b3 b)
      unfolding ingest_block
      ingest_block-Keeps b = next (given-Keeps kv R L _) (
          branch-Keeps kv R L (not (pow_valid b3 b.header)) _ _ (fails-Keeps kv R L invalid_pow) (
            branch-Keeps kv R L (b.header.height == 0) _ _
              (genesis_again-Keeps kv R L (header_id b3 b.header) already_known)
              (store_block-Keeps (header_id b3 b.header) b)))

      pub mine_run-Keeps :
          (mined : _)
          → Keeps kv R (
              given kv mined >>= λ block. ingest_block kv fuel b3 block >>= λ out. returns kv out.0)
      mine_run-Keeps mined =
          bind (given-Keeps kv R L mined)
            λ block. bind (ingest_block-Keeps block) λ out. returns-Keeps kv R L out.0
