-- ===== src/Builder/Checks.antt =====
-- What the checks of a block's transactions decide.
use egg_project.Prelude.{
  ℕ, suc, ◌+◌, ◌≡◌, refl, ap, ◌∙◌, ◌↔◌, ◌⊎◌, inl, inr, true, false, some, List, [], ◌∷◌, All,
  get_elem?, take, Result, ok, err, bytes_eq_iff, Bool-cases, arith,
}
use egg_project.Types.{Transaction, Block}
use egg_project.Crypto.Hashing.{Blake3, tx_id_from_payload, validate_tx_id}
use egg_project.Crypto.Merkle.{merkle_root_txids}
use egg_project.Builder.{
  BlockBuildError, invalid_tx_id, ids, check_ids, compute_merkle_root_from_txs, verify_block_merkle,
}

module _ (b3 : Blake3) where
  abbrev pub HasValidId : Transaction → Type 0
  HasValidId tx = validate_tx_id b3 tx ≡ true

  pub check_ids_ok :
      (i : ℕ) (txs : List Transaction) → (check_ids b3 i txs ≡ ok tt) ↔ All HasValidId txs
  unfolding check_ids
  check_ids_ok i [] = (λ h. tt, λ h. refl)
  check_ids_ok i (tx ∷ txs) =
      let ih = check_ids_ok (suc i) txs in
      elim (Bool-cases (validate_tx_id b3 tx)) [
        | inl e ↦ rw e (λ h. (refl, ih.0 h), λ h. ih.1 h.1)
        | inr e ↦ rw e (λ h. absurd (ground arith), λ h. ground arith)
      ]

  Unit_ok :
      (r : Result BlockBuildError (Unit {0})) → (r ≡ ok tt) ⊎ ((e : BlockBuildError) × (r ≡ err e))
  Unit_ok (ok tt) = inl refl
  Unit_ok (err e) = inr (e, refl)

  checked :
      (b : Block)
      → check_ids b3 0 b.txs ≡ ok tt
      → (verify_block_merkle b3 b ≡ ok tt)
        ↔ (b.header.merkle_root ≡ merkle_root_txids b3 (ids b.txs))
  unfolding verify_block_merkle
  checked b e =
      let same = bytes_eq_iff b.header.merkle_root (merkle_root_txids b3 (ids b.txs)) in
      rw e (λ h. same.0 (ground arith), λ h. rw (same.1 h))

  unchecked :
      (b : Block) (e : BlockBuildError)
      → check_ids b3 0 b.txs ≡ err e
      → verify_block_merkle b3 b ≡ err e
  unfolding verify_block_merkle
  unchecked b e h = rw h

  -- A block passes `verify_block_merkle` exactly when every transaction has the id of its payload
  -- and the header has the Merkle root of the ids.
  pub verify_block_merkle_ok :
      (b : Block)
      → (verify_block_merkle b3 b ≡ ok tt)
        ↔ (All HasValidId b.txs × (b.header.merkle_root ≡ merkle_root_txids b3 (ids b.txs)))
  verify_block_merkle_ok b = elim (Unit_ok (check_ids b3 0 b.txs)) [
    | inl e ↦ (λ h. ((check_ids_ok 0 b.txs).0 e, (checked b e).0 h), λ h. (checked b e).1 h.1)
    | inr (x, e) ↦ (λ h. cc (unchecked b x e), λ h. cc ((check_ids_ok 0 b.txs).1 h.0))
  ]

  renumber :
      {m n : ℕ} (t : Transaction)
      → m ≡ n
      → invalid_tx_id m (tx_id_from_payload b3 t.payload) t.id
        ≡ invalid_tx_id n (tx_id_from_payload b3 t.payload) t.id
  renumber t e = ap (λ n. invalid_tx_id n (tx_id_from_payload b3 t.payload) t.id) e

  check_ids_err :
      (i : ℕ) (txs : List Transaction) (e : BlockBuildError)
      → check_ids b3 i txs ≡ err e
      → (j : ℕ) × (tx : Transaction) × (get_elem? txs j ≡ some tx)
        × All HasValidId (take j txs)
        × (validate_tx_id b3 tx ≡ false)
        × (e ≡ invalid_tx_id (i + j) (tx_id_from_payload b3 tx.payload) tx.id)
  check_ids_err i [] e h = unfold check_ids in cc
  check_ids_err i (tx ∷ txs) e h =
      step (Bool-cases (validate_tx_id b3 tx)) (check_ids_err (suc i) txs e)
    where
      step :
          (validate_tx_id b3 tx ≡ true) ⊎ (validate_tx_id b3 tx ≡ false)
          → (check_ids b3 (suc i) txs ≡ err e
              → (j : ℕ) × (t : Transaction) × (get_elem? txs j ≡ some t)
                × All HasValidId (take j txs)
                × (validate_tx_id b3 t ≡ false)
                × (e ≡ invalid_tx_id (suc i + j) (tx_id_from_payload b3 t.payload) t.id))
          → (j : ℕ) × (t : Transaction) × (get_elem? (tx ∷ txs) j ≡ some t)
            × All HasValidId (take j (tx ∷ txs))
            × (validate_tx_id b3 t ≡ false)
            × (e ≡ invalid_tx_id (i + j) (tx_id_from_payload b3 t.payload) t.id)
      step (inl v) ih =
          let (j, t, at, before, bad, which) = ih (unfold check_ids in ground arith) in
          (suc j, t, at, (v, before), bad, which ∙ renumber t (omega arith))
      step (inr v) ih = (0, tx, refl, tt, v, unfold check_ids in ground arith)

  -- When the Merkle root of a list of transactions is refused, the error names the first
  -- transaction whose id is not that of its payload: its index, the id expected and its id.
  pub compute_merkle_root_invalid :
      (txs : List Transaction) (e : BlockBuildError)
      → compute_merkle_root_from_txs b3 txs ≡ err e
      → (i : ℕ) × (tx : Transaction) × (get_elem? txs i ≡ some tx)
        × All HasValidId (take i txs)
        × (validate_tx_id b3 tx ≡ false)
        × (e ≡ invalid_tx_id i (tx_id_from_payload b3 tx.payload) tx.id)
  compute_merkle_root_invalid txs e h =
      let (j, tx, at, before, bad, which) =
        check_ids_err 0 txs e (failed (check_ids b3 0 txs) refl) in
      (j, tx, at, before, bad, which ∙ renumber tx (omega arith))
    where
      failed :
          (r : Result BlockBuildError (Unit {0}))
          → check_ids b3 0 txs ≡ r
          → check_ids b3 0 txs ≡ err e
      failed (ok tt) p = unfold compute_merkle_root_from_txs in ground arith
      failed (err x) p = unfold compute_merkle_root_from_txs in ground arith
