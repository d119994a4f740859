-- ===== src/Examples/Opened.antt =====
-- Uses of the theorems on the chain state.
use egg_project.Prelude.{
  ◌≡◌, ◌≢◌, ap, sym, ◌∙◌, subst, some, true, [], suc, ◌<◌, ok, err, arith, bytes_eq_refl,
  if◌then◌else◌,
}
use egg_project.Types.{Hash256}
use egg_project.Kv.{mem_kv, mem_kv-KvLaws}
use egg_project.Crypto.Hashing.{header_id, pow_valid}
use egg_project.Genesis.{genesis_fields}
use egg_project.Store.View.{Implements, empty_view, update}
use egg_project.Store.Fresh.{empty-Implements}
use egg_project.Chain.Defs.{ChainState, meta_of, out_of_fuel, invalid_pow}
use egg_project.Chain.Open.{open_or_init}
use egg_project.Chain.Validate.{validate_best_chain}
use egg_project.Chain.Ingest.{ingest_block}
use egg_project.Chain.TipOrder.{NoWorse}
use egg_project.Chain.ForkChoice.{ingest_block_tip}
use egg_project.Chain.Fresh.{genesis_view, open_or_init_fresh, open_or_init_again}
use egg_project.Chain.Reorg.{better, maybe_set_tip}
use egg_project.Chain.TipChange.{maybe_set_tip_lem}
use egg_project.Chain.Restart.{open_or_init-validate, genesis_headers}
use egg_project.Store.Records.{BlockMeta}
use egg_project.Chain.Sound.{ValidChain, validate_best_chain_ends, validate_best_chain_sound}
use egg_project.Examples.Data.{sum_hash, hash_of, block1, spec1, spec1-IsSpec}
use egg_project.Examples.Pool.{spec1_accepted}

-- The state of a chain that is opened on an empty store in memory.
abbrev pub state1 : ChainState mem_kv.State
state1 =
    (open_or_init_fresh mem_kv mem_kv-KvLaws sum_hash 5 spec1 [] empty-Implements spec1-IsSpec
      (omega arith) spec1_accepted).0

state1_opened : open_or_init mem_kv sum_hash 5 spec1 [] ≡ (ok state1, state1.store)
state1_opened =
    (open_or_init_fresh mem_kv mem_kv-KvLaws sum_hash 5 spec1 [] empty-Implements spec1-IsSpec
      (omega arith) spec1_accepted).1

open_or_init_fresh_example :
    (st : ChainState mem_kv.State) × (open_or_init mem_kv sum_hash 5 spec1 [] ≡ (ok st, st.store))
    × (st.spec ≡ spec1)
    × (st.tip ≡ record { height = 0; hash = header_id sum_hash (genesis_fields spec1) })
    × (st.meta.genesis_id ≡ header_id sum_hash (genesis_fields spec1))
    × Implements mem_kv st.store (genesis_view st.meta (genesis_fields spec1))
open_or_init_fresh_example =
    open_or_init_fresh mem_kv mem_kv-KvLaws sum_hash 5 spec1 [] empty-Implements spec1-IsSpec
      (omega arith) spec1_accepted

open_or_init_again_example :
    open_or_init mem_kv sum_hash 5 spec1 state1.store ≡ (ok state1, state1.store)
open_or_init_again_example =
    open_or_init_again mem_kv mem_kv-KvLaws sum_hash 5 spec1 [] state1 empty-Implements spec1-IsSpec
      (omega arith) spec1_accepted (ap (λ r. r.0) state1_opened)

open_or_init-validate_example :
    (st : ChainState mem_kv.State) × (open_or_init mem_kv sum_hash 5 spec1 [] ≡ (ok st, st.store))
    × ((validate_best_chain mem_kv sum_hash (suc 5) st).0
        ≡ (if pow_valid sum_hash (genesis_fields spec1) then ok tt else err invalid_pow))
open_or_init-validate_example =
    open_or_init-validate mem_kv mem_kv-KvLaws sum_hash 5 spec1 [] empty-Implements spec1-IsSpec
      (omega arith) spec1_accepted

genesis_pow : pow_valid sum_hash (genesis_fields spec1) ≡ true
unfolding pow_valid
genesis_pow = ground arith

pub state1_facts :
    (state1.tip.hash ≡ state1.meta.genesis_id)
    × Implements mem_kv state1.store (genesis_view state1.meta (genesis_fields spec1))
state1_facts =
    let (_, _, _, tip, gid, after) =
      open_or_init_fresh mem_kv mem_kv-KvLaws sum_hash 5 spec1 [] empty-Implements spec1-IsSpec
        (omega arith) spec1_accepted in
    (ap (λ t. t.hash) tip ∙ sym gid, after)

state1_validated : (validate_best_chain mem_kv sum_hash 6 state1).0 ≡ ok tt
state1_validated =
    let (st, opened, valid) =
      open_or_init-validate mem_kv mem_kv-KvLaws sum_hash 5 spec1 [] empty-Implements spec1-IsSpec
        (omega arith) spec1_accepted in
    let same : st ≡ state1 = cc (opened, state1_opened) in
    subst (λ x. (validate_best_chain mem_kv sum_hash 6 x).0 ≡ ok tt) same (valid ∙ rw genesis_pow)

found_meta :
    (x g : Hash256) (mt m : BlockMeta)
    → x ≡ g
    → update empty_view.block_meta g (some mt) x ≡ some m
    → mt ≡ m
found_meta x g mt m q e =
    let here : update empty_view.block_meta g (some mt) x ≡ some mt = rw (q, bytes_eq_refl g) in
    cc (here, e)

state1_low :
    (m : BlockMeta)
    → (genesis_view state1.meta (genesis_fields spec1)).block_meta state1.tip.hash ≡ some m
    → m.height < 1
state1_low m e =
    subst (λ y. y.height < 1)
      (found_meta state1.tip.hash state1.meta.genesis_id (meta_of (genesis_fields spec1)) m
        state1_facts.0 e)
      (omega arith)

validate_best_chain_ends_example :
    (validate_best_chain mem_kv sum_hash 1 state1).0 ≢ err out_of_fuel
validate_best_chain_ends_example =
    validate_best_chain_ends mem_kv mem_kv-KvLaws sum_hash 0 state1
      (genesis_view state1.meta (genesis_fields spec1)) state1_facts.1
      (genesis_headers mem_kv mem_kv-KvLaws sum_hash state1.meta spec1 spec1-IsSpec) state1_low
      (omega arith)

validate_best_chain_sound_example :
    (m : BlockMeta) × (((genesis_view state1.meta (genesis_fields spec1)).block_meta state1.tip.hash
        ≡ some m)
      × ValidChain sum_hash
          (genesis_view state1.meta (genesis_fields spec1)).header
          (genesis_view state1.meta (genesis_fields spec1)).block
          state1.meta.genesis_id
          state1.tip.hash
          m.height)
validate_best_chain_sound_example =
    validate_best_chain_sound mem_kv mem_kv-KvLaws sum_hash 6 state1
      (genesis_view state1.meta (genesis_fields spec1)) state1_facts.1
      (genesis_headers mem_kv mem_kv-KvLaws sum_hash state1.meta spec1 spec1-IsSpec)
      (λ m e. omega (arith, state1_low m e)) state1_validated

ingest_block_tip_example : NoWorse state1.tip (ingest_block mem_kv 5 sum_hash block1 state1).1.tip
ingest_block_tip_example = ingest_block_tip mem_kv 5 sum_hash block1 state1

maybe_set_tip_lem_example : (maybe_set_tip mem_kv 5 (hash_of 2) 7 state1).1.tip ≡ (
    if better (hash_of 2) 7 state1.tip then record { height = 7; hash = hash_of 2 } else state1.tip)
maybe_set_tip_lem_example = maybe_set_tip_lem mem_kv mem_kv-KvLaws 5 (hash_of 2) 7 state1
