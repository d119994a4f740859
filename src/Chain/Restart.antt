-- ===== src/Chain/Restart.antt =====
-- `validate_best_chain` on a chain that has been opened for the first time.
use egg_project.Prelude.{
  ℕ, suc, ◌^◌, ◌<◌, ◌≡◌, refl, sym, ap, ◌∙◌, subst, true, false, [], ok, err, bytes_eq,
  bytes_eq_refl, length, if◌then◌else◌, Bool-cases, ◌⊎◌, inl, inr, some, none, arith,
}
use egg_project.Types.{Hash256, BlockHeader, ChainSpec, IsSpec, IsHeader, zero_hash}
use egg_project.Kv.{KvStore, KvLaws}
use egg_project.Exec.{◌>>=◌}
use egg_project.Crypto.Hashing.{Blake3, pow_valid}
use egg_project.Builder.{verify_block_merkle}
use egg_project.Builder.Checks.{verify_block_merkle_ok}
use egg_project.Crypto.Merkle.{merkle_root_txids}
use egg_project.Genesis.Laws.{genesis_fields-IsHeader}
use egg_project.Chain.Rounds.{at_bottom}
use egg_project.Genesis.{genesis_fields, validate_chainspec}
use egg_project.Store.Records.{ChainMeta}
use egg_project.Store.View.{Implements, empty_view}
use egg_project.Chain.Defs.{ChainState, invalid_pow, self, branch, returns}
use egg_project.Chain.Validate.{check_genesis, validate_loop, validate_best_chain}
use egg_project.Chain.Abstract.{view_check, check_block_view}
use egg_project.Chain.Open.{open_or_init}
use egg_project.Chain.Fresh.{genesis_view, open_or_init_fresh}

module _ (kv : KvStore) (laws : KvLaws kv) (b3 : Blake3) where
  open kv use {State}

  genesis_check :
      (m : ChainMeta) (spec : ChainSpec)
      → view_check b3 (genesis_view m (genesis_fields spec)) m.genesis_id
        ≡ (if pow_valid b3 (genesis_fields spec) then ok (genesis_fields spec) else err invalid_pow)
  genesis_check m spec = elim (Bool-cases (pow_valid b3 (genesis_fields spec))) [
    | inl p ↦ rw (bytes_eq_refl m.genesis_id, bytes_eq_refl zero_hash, p, genesis_verifies spec)
    | inr p ↦ rw (bytes_eq_refl m.genesis_id, bytes_eq_refl zero_hash, p)
  ]
    where
      genesis_verifies :
          (spec : ChainSpec)
          → verify_block_merkle b3 (record { header = genesis_fields spec; txs = [] }) ≡ ok tt
      genesis_verifies spec =
          (verify_block_merkle_ok b3 (record { header = genesis_fields spec; txs = [] })).1
            (tt, unfold merkle_root_txids in refl)

  accepts_genesis : (st : ChainState State) → (check_genesis kv b3 st.meta.genesis_id st).0 ≡ ok tt
  unfolding check_genesis ◌>>=◌ self branch returns
  accepts_genesis st = rw (bytes_eq_refl st.meta.genesis_id)

  pub genesis_headers :
      (m : ChainMeta) (spec : ChainSpec)
      → IsSpec spec
      → (id : Hash256) (h : BlockHeader) → (genesis_view m (genesis_fields spec)).header id ≡ some h
      → IsHeader h
  genesis_headers m spec w id h e = elim (Bool-cases (bytes_eq m.genesis_id id)) [
    | inl q ↦ subst IsHeader (found q) (genesis_fields-IsHeader spec w)
    | inr q ↦ absurd (cc (missing q))
  ]
    where
      found : bytes_eq m.genesis_id id ≡ true → genesis_fields spec ≡ h
      found q = ground (arith, q, e)

      missing : bytes_eq m.genesis_id id ≡ false → some h ≡ none
      missing q = ground (arith, q, e)

  whole :
      (fuel : ℕ) (st : ChainState State)
      → st.tip.hash ≡ st.meta.genesis_id
      → (validate_best_chain kv b3 (suc fuel) st).0
        ≡ (validate_loop kv b3 (suc fuel) st.meta.genesis_id st).0
  unfolding validate_best_chain ◌>>=◌ self
  whole fuel st t = ap (λ h. (validate_loop kv b3 (suc fuel) h st).0) t

  loop_accepts :
      (fuel : ℕ) (spec : ChainSpec) (st : ChainState State)
      → IsSpec spec
      → Implements kv st.store (genesis_view st.meta (genesis_fields spec))
      → pow_valid b3 (genesis_fields spec) ≡ true
      → (validate_loop kv b3 (suc fuel) st.meta.genesis_id st).0 ≡ ok tt
  loop_accepts fuel spec st w i p =
      ap (λ x. x.0)
        (at_bottom kv laws b3 st (genesis_view st.meta (genesis_fields spec)) i headers fuel
          st.meta.genesis_id (genesis_fields spec) (genesis_check st.meta spec ∙ rw p) refl)
      ∙ accepts_genesis st
    where
      headers :
          (id : Hash256) (h : BlockHeader)
          → (genesis_view st.meta (genesis_fields spec)).header id ≡ some h
          → IsHeader h
      headers = genesis_headers st.meta spec w

  loop_refuses :
      (fuel : ℕ) (spec : ChainSpec) (st : ChainState State)
      → Implements kv st.store (genesis_view st.meta (genesis_fields spec))
      → pow_valid b3 (genesis_fields spec) ≡ false
      → (validate_loop kv b3 (suc fuel) st.meta.genesis_id st).0 ≡ err invalid_pow
  unfolding validate_loop ◌>>=◌
  loop_refuses fuel spec st i p = rw (
    check_block_view kv laws b3 st (genesis_view st.meta (genesis_fields spec)) i
        st.meta.genesis_id,
    genesis_check st.meta spec,
    p,
  )

  -- A chain that has just been opened on an empty store that keeps the laws, from an accepted
  -- specification with a name shorter than 2 ^ 32 bytes, is accepted by `validate_best_chain` if the
  -- genesis header has a valid proof of work; otherwise, although `open_or_init` has succeeded, it is
  -- refused with `InvalidPow`.
  pub open_or_init-validate :
      (fuel : ℕ) (spec : ChainSpec) (s : State)
      → Implements kv s empty_view
      → IsSpec spec
      → length spec.chain.chain_name < 2 ^ 32
      → validate_chainspec spec ≡ ok tt
      → (st : ChainState State) × (open_or_init kv b3 fuel spec s ≡ (ok st, st.store))
        × ((validate_best_chain kv b3 (suc fuel) st).0
            ≡ (if pow_valid b3 (genesis_fields spec) then ok tt else err invalid_pow))
  open_or_init-validate fuel spec s i w n e =
      let (st, opened, same_spec, tip, gid, after) =
        open_or_init_fresh kv laws b3 fuel spec s i w n e in
      (
        st,
        opened,
        validated st after (ap (λ t. t.hash) tip ∙ sym gid)
            (Bool-cases (pow_valid b3 (genesis_fields spec))),
      )
    where
      validated :
          (st : ChainState State)
          → Implements kv st.store (genesis_view st.meta (genesis_fields spec))
          → st.tip.hash ≡ st.meta.genesis_id
          → ((pow_valid b3 (genesis_fields spec) ≡ true)
              ⊎ (pow_valid b3 (genesis_fields spec) ≡ false))
          → (validate_best_chain kv b3 (suc fuel) st).0
            ≡ (if pow_valid b3 (genesis_fields spec) then ok tt else err invalid_pow)
      validated st after t (inl p) = whole fuel st t ∙ loop_accepts fuel spec st w after p ∙ rw p
      validated st after t (inr p) = whole fuel st t ∙ loop_refuses fuel spec st after p ∙ rw p
