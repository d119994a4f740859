-- ===== src/Mempool/Invariant.antt =====
-- The invariant of the pool: what holds of it after any sequence of operations.
use egg_project.Prelude.{
  ℕ, zero, suc, ◌+◌, ◌<◌, ◌≤◌, ◌≡◌, ◌≢◌, ◌⊎◌, refl, Bool, true, false, ◌||◌, none, some, List, [],
  ◌∷◌, ◌++◌, length, Result, ok, err, arith, bytes_eq, bytes_eq_iff, bytes_eq_refl, Option-cases,
  inl, inr,
}
use egg_project.Prelude.Words.{saturating_add, saturating_sub}
use egg_project.Prelude.Assoc.{
  lookup, contains_key, insert, Unique, total, insert-Unique, remove-Unique, total-insert_new,
  total-remove, length-insert_new, length-remove, lookup-insert, lookup-remove,
}
use egg_project.Types.{Hash256, Transaction}
use egg_project.Crypto.Hashing.{Blake3, validate_tx_id}
use egg_project.Mempool.Defs.{
  AddOutcome, MempoolError, Mempool, empty, add_tx, remove, drop_tx, drain_loop, drain_fifo,
  default_max_txs, default_max_total_bytes,
}

abbrev pub payload_length : Transaction → ℕ
payload_length tx = length tx.payload

unfoldable pub elem : Hash256 → List Hash256 → Bool
elem k [] = false
elem k (x ∷ xs) = bytes_eq x k || elem k xs

pub elem-append :
    (k : Hash256) (xs ys : List Hash256) → elem k (xs ++ ys) ≡ (elem k xs || elem k ys)
unfolding elem
elem-append k [] ys = refl
elem-append k (x ∷ xs) ys = ground (arith, elem-append k xs ys)

pub record IsValid (b3 : Blake3) (mp : Mempool) : Type 0 where
  pub unique : Unique mp.by_id
  pub counted : total payload_length mp.by_id ≡ mp.total_payload_bytes
  pub few : length mp.by_id ≤ default_max_txs
  pub small : mp.total_payload_bytes ≤ default_max_total_bytes
  pub keyed :
      (k : Hash256) (tx : Transaction)
      → lookup k mp.by_id ≡ some tx
      → (tx.id ≡ k) × (validate_tx_id b3 tx ≡ true)
  pub queued :
      (k : Hash256) (tx : Transaction) → lookup k mp.by_id ≡ some tx → elem k mp.order ≡ true

pub remove_unknown :
    (txid : Hash256) (mp : Mempool) → lookup txid mp.by_id ≡ none → remove txid mp ≡ (none, mp)
unfolding remove
remove_unknown txid mp e = rw (e, remove)

pub remove_known :
    (txid : Hash256) (tx : Transaction) (mp : Mempool)
    → lookup txid mp.by_id ≡ some tx
    → remove txid mp ≡ (some tx, drop_tx txid tx mp)
unfolding remove
remove_known txid tx mp e = rw (e, remove)

pub drain_skip :
    (room : ℕ) (txid : Hash256) (order : List Hash256) (mp : Mempool)
    → lookup txid mp.by_id ≡ none
    → drain_loop (suc room) (txid ∷ order) mp ≡ drain_loop (suc room) order mp
unfolding drain_loop
drain_skip room txid order mp e = ground arith

pub drain_pop :
    (room : ℕ) (txid : Hash256) (order : List Hash256) (tx : Transaction) (mp : Mempool)
    → lookup txid mp.by_id ≡ some tx
    → drain_loop (suc room) (txid ∷ order) mp ≡ (
      tx ∷ (drain_loop room order (drop_tx txid tx mp)).0,
      (drain_loop room order (drop_tx txid tx mp)).1,
    )
unfolding drain_loop
drain_pop room txid order tx mp e = ground arith

-- The pool with one more transaction.
abbrev pub with_tx : Transaction → Mempool → Mempool
with_tx tx mp = record {
  by_id = insert tx.id tx mp.by_id;
  order = mp.order ++ (tx.id ∷ []);
  total_payload_bytes = mp.total_payload_bytes + length tx.payload;
}

-- The pool in the middle of a drain, with what is left of the queue.
abbrev pub with_order : List Hash256 → Mempool → Mempool
with_order order mp = record mp { order = order }

module _ (b3 : Blake3) where
  pub empty-IsValid : IsValid b3 empty
  unfolding lookup total
  empty-IsValid = record {
    unique = tt;
    counted = refl;
    few = omega arith;
    small = omega arith;
    keyed = λ k tx h. ground arith;
    queued = λ k tx h. ground arith;
  }

  -- What the tests of `add_tx` leave, when it adds.
  pub record Admitted (tx : Transaction) (mp : Mempool) : Type 0 where
    pub id_valid : validate_tx_id b3 tx ≡ true
    pub fresh : lookup tx.id mp.by_id ≡ none
    pub room : length mp.by_id < default_max_txs
    pub fits : mp.total_payload_bytes + length tx.payload ≤ default_max_total_bytes

  pub with_tx-IsValid :
      (tx : Transaction) (mp : Mempool)
      → IsValid b3 mp
      → Admitted tx mp
      → IsValid b3 (with_tx tx mp)
  with_tx-IsValid tx mp v a = record {
    unique = insert-Unique tx.id tx mp.by_id v.unique;
    counted = omega (arith, total-insert_new payload_length tx.id tx mp.by_id a.fresh, v.counted);
    few = omega (arith, length-insert_new tx.id tx mp.by_id a.fresh, a.room);
    small = a.fits;
    keyed = λ k t h.
        ground
          (arith, lookup-insert tx.id k tx mp.by_id, bytes_eq_iff tx.id k, v.keyed k t, a.id_valid);
    queued = λ k t h.
        unfold elem in
        ground (
          arith,
          lookup-insert tx.id k tx mp.by_id,
          elem-append k mp.order (tx.id ∷ []),
          v.queued k t,
        );
  }

  pub drop_tx-IsValid :
      (txid : Hash256) (tx : Transaction) (mp : Mempool)
      → IsValid b3 mp
      → lookup txid mp.by_id ≡ some tx
      → IsValid b3 (drop_tx txid tx mp)
  unfolding drop_tx saturating_sub
  drop_tx-IsValid txid tx mp v h = record {
    unique = remove-Unique txid mp.by_id v.unique;
    counted = omega (arith, total-remove payload_length txid tx mp.by_id v.unique h, v.counted);
    few = omega (arith, length-remove txid tx mp.by_id v.unique h, v.few);
    small = omega (arith, v.small);
    keyed = λ k t e. ground (arith, lookup-remove txid k mp.by_id, v.keyed k t);
    queued = λ k t e. ground (arith, lookup-remove txid k mp.by_id, v.queued k t);
  }

  -- A transaction that passes every test is added: it enters the map and the end of the queue, and
  -- its payload is counted.
  pub add_tx-Admitted :
      (tx : Transaction) (mp : Mempool)
      → IsValid b3 mp
      → Admitted tx mp
      → add_tx b3 tx mp ≡ (ok AddOutcome.added, with_tx tx mp)
  unfolding add_tx validate_tx_id contains_key saturating_add
  add_tx-Admitted tx mp v a = ground (arith, a.id_valid, a.fresh, a.room, a.fits, v.small)

  -- When `add_tx` answers anything but `Added`, it has changed nothing.
  pub add_tx_unchanged :
      (tx : Transaction) (mp : Mempool)
      → (add_tx b3 tx mp).0 ≢ ok AddOutcome.added
      → (add_tx b3 tx mp).1 ≡ mp
  unfolding add_tx
  add_tx_unchanged tx mp h = ground arith

  -- When it answers `Added`, the transaction has passed every test.
  pub add_tx_added :
      (tx : Transaction) (mp : Mempool)
      → IsValid b3 mp
      → (add_tx b3 tx mp).0 ≡ ok AddOutcome.added
      → Admitted tx mp
  unfolding add_tx validate_tx_id contains_key saturating_add
  add_tx_added tx mp v h = ground (arith, v.small)

  add_tx_cases :
      (r : Result MempoolError AddOutcome) → (r ≡ ok AddOutcome.added) ⊎ (r ≢ ok AddOutcome.added)
  add_tx_cases (ok AddOutcome.added) = inl refl
  add_tx_cases (ok AddOutcome.already_known) = inr (λ e. cc)
  add_tx_cases (err x) = inr (λ e. cc)

  pub add_tx-IsValid :
      (tx : Transaction) (mp : Mempool) → IsValid b3 mp → IsValid b3 (add_tx b3 tx mp).1
  add_tx-IsValid tx mp v = elim (add_tx_cases (add_tx b3 tx mp).0) [
    | inl e ↦
        let a = add_tx_added tx mp v e in rw (add_tx-Admitted tx mp v a) (with_tx-IsValid tx mp v a)
    | inr e ↦ rw (add_tx_unchanged tx mp e) v
  ]

  pub remove-IsValid :
      (txid : Hash256) (mp : Mempool) → IsValid b3 mp → IsValid b3 (remove txid mp).1
  remove-IsValid txid mp v = elim (Option-cases (lookup txid mp.by_id)) [
    | inl e ↦ rw (remove_unknown txid mp e) v
    | inr (tx, e) ↦ rw (remove_known txid tx mp e) (drop_tx-IsValid txid tx mp v e)
  ]

  pub skip-IsValid :
      (txid : Hash256) (order : List Hash256) (mp : Mempool)
      → IsValid b3 (with_order (txid ∷ order) mp)
      → lookup txid mp.by_id ≡ none
      → IsValid b3 (with_order order mp)
  skip-IsValid txid order mp v e = record {
    unique = v.unique;
    counted = v.counted;
    few = v.few;
    small = v.small;
    keyed = v.keyed;
    queued = λ k t h. unfold elem in ground (arith, v.queued k t, bytes_eq_iff txid k);
  }

  pub pop-IsValid :
      (txid : Hash256) (order : List Hash256) (tx : Transaction) (mp : Mempool)
      → IsValid b3 (with_order (txid ∷ order) mp)
      → lookup txid mp.by_id ≡ some tx
      → IsValid b3 (with_order order (drop_tx txid tx mp))
  pop-IsValid txid order tx mp v e =
      skip-IsValid txid order (drop_tx txid tx mp)
        (unfold drop_tx in drop_tx-IsValid txid tx (with_order (txid ∷ order) mp) v e)
        (unfold drop_tx in rw (lookup-remove txid txid mp.by_id, bytes_eq_refl txid))

  drain_loop-IsValid :
      (room : ℕ) (order : List Hash256) (mp : Mempool)
      → IsValid b3 (with_order order mp)
      → IsValid b3 (drain_loop room order mp).1
  drain_loop-IsValid zero order mp v = unfold drain_loop in v
  drain_loop-IsValid (suc room) [] mp v = unfold drain_loop in v
  drain_loop-IsValid (suc room) (txid ∷ order) mp v =
      step (Option-cases (lookup txid mp.by_id)) (drain_loop-IsValid (suc room) order mp)
        (λ tx. drain_loop-IsValid room order (drop_tx txid tx mp))
    where
      step :
          (lookup txid mp.by_id ≡ none) ⊎ ((tx : Transaction) × (lookup txid mp.by_id ≡ some tx))
          → (IsValid b3 (with_order order mp) → IsValid b3 (drain_loop (suc room) order mp).1)
          → ((tx : Transaction)
              → IsValid b3 (with_order order (drop_tx txid tx mp))
              → IsValid b3 (drain_loop room order (drop_tx txid tx mp)).1)
          → IsValid b3 (drain_loop (suc room) (txid ∷ order) mp).1
      step (inl e) skipped popped =
          rw (drain_skip room txid order mp e) (skipped (skip-IsValid txid order mp v e))
      step (inr (tx, e)) skipped popped =
          rw (drain_pop room txid order tx mp e) (popped tx (pop-IsValid txid order tx mp v e))

  pub drain_fifo-IsValid :
      (max : ℕ) (mp : Mempool) → IsValid b3 mp → IsValid b3 (drain_fifo max mp).1
  unfolding drain_fifo
  drain_fifo-IsValid max mp v = drain_loop-IsValid max mp.order mp v

  -- `add_tx`, `remove` and `drain_fifo` keep the invariant of the pool (unique keys, the byte count
  -- is the sum of the payloads, both limits hold, every id is that of its payload and stands in the
  -- order), whatever they are given and whatever they answer.
  pub operations-IsValid :
      (tx : Transaction) (txid : Hash256) (n : ℕ) (mp : Mempool)
      → IsValid b3 mp
      → IsValid b3 (add_tx b3 tx mp).1
        × IsValid b3 (remove txid mp).1
        × IsValid b3 (drain_fifo n mp).1
  operations-IsValid tx txid n mp v =
      (add_tx-IsValid tx mp v, remove-IsValid txid mp v, drain_fifo-IsValid n mp v)
