-- ===== src/Mempool/Fifo.antt =====
-- The pool as a queue: the transactions in the order in which `drain_fifo` hands them out.
use egg_project.Prelude.{
  ℕ, zero, suc, min, ◌≡◌, refl, sym, ap, ap₂, ◌∙◌, ◌⊎◌, inl, inr, Bool, true, false, Option, none,
  some, List, [], ◌∷◌, ◌++◌, append-nil, length, length-take, take, drop, arith, bytes_eq,
  bytes_eq_iff, bytes_eq_refl, Bool-cases, Option-cases,
}
use egg_project.Prelude.Assoc.{
  Assoc, lookup, insert, remove as map_remove, lookup-insert, lookup-remove, length-remove,
  total-remove,
}
use egg_project.Prelude.Words.{saturating_sub}
use egg_project.Types.{Hash256, Transaction}
use egg_project.Crypto.Hashing.{Blake3}
use egg_project.Mempool.Defs.{Mempool, len, add_tx, remove, drop_tx, drain_loop, drain_fifo}
use egg_project.Mempool.Invariant.{
  payload_length, elem, IsValid, Admitted, with_order, add_tx-Admitted, remove_known, drain_skip,
  drain_pop, skip-IsValid, pop-IsValid, drop_tx-IsValid,
}

-- Each id of the queue stands for the transaction that the map still has, once.
unfoldable pub pending : List Hash256 → Assoc Transaction → List Transaction
pending [] m = []
pending (k ∷ order) m = elim (lookup k m) [
  | none ↦ pending order m
  | some tx ↦ tx ∷ pending order (map_remove k m)
]

abbrev pub queue : Mempool → List Transaction
queue mp = pending mp.order mp.by_id

pub pending_skip :
    (k : Hash256) (order : List Hash256) (m : Assoc Transaction)
    → lookup k m ≡ none
    → pending (k ∷ order) m ≡ pending order m
unfolding pending
pending_skip k order m e = ground arith

pub pending_pop :
    (k : Hash256) (order : List Hash256) (tx : Transaction) (m : Assoc Transaction)
    → lookup k m ≡ some tx
    → pending (k ∷ order) m ≡ tx ∷ pending order (map_remove k m)
unfolding pending
pending_pop k order tx m e = ground arith

-- Draining takes the first `max` transactions of the queue, and leaves the others in their order.
drain_loop-pending :
    (room : ℕ) (order : List Hash256) (mp : Mempool)
    → ((drain_loop room order mp).0 ≡ take room (pending order mp.by_id))
      × (queue (drain_loop room order mp).1 ≡ drop room (pending order mp.by_id))
unfolding drop_tx
drain_loop-pending zero order mp = unfold drain_loop in (refl, refl)
drain_loop-pending (suc room) [] mp = unfold drain_loop pending in (refl, refl)
drain_loop-pending (suc room) (k ∷ order) mp =
    step (Option-cases (lookup k mp.by_id)) (drain_loop-pending (suc room) order mp)
      (λ tx. drain_loop-pending room order (drop_tx k tx mp))
  where
    step :
        (lookup k mp.by_id ≡ none) ⊎ ((tx : Transaction) × (lookup k mp.by_id ≡ some tx))
        → ((drain_loop (suc room) order mp).0 ≡ take (suc room) (pending order mp.by_id))
          × (queue (drain_loop (suc room) order mp).1 ≡ drop (suc room) (pending order mp.by_id))
        → ((tx : Transaction)
            → ((drain_loop room order (drop_tx k tx mp)).0
                ≡ take room (pending order (drop_tx k tx mp).by_id))
              × (queue (drain_loop room order (drop_tx k tx mp)).1
                  ≡ drop room (pending order (drop_tx k tx mp).by_id)))
        → ((drain_loop (suc room) (k ∷ order) mp).0
            ≡ take (suc room) (pending (k ∷ order) mp.by_id))
          × (queue (drain_loop (suc room) (k ∷ order) mp).1
              ≡ drop (suc room) (pending (k ∷ order) mp.by_id))
    step (inl e) skipped popped =
        rw (drain_skip room k order mp e, pending_skip k order mp.by_id e) skipped
    step (inr (tx, e)) skipped popped =
        rw (drain_pop room k order tx mp e, pending_pop k order tx mp.by_id e)
          (ap (◌∷◌ tx) (popped tx).0, (popped tx).1)

-- `drain_fifo` hands out the first `max` transactions of the queue in their order, and leaves the
-- queue without them.
pub drain_fifo-queue :
    (max : ℕ) (mp : Mempool)
    → ((drain_fifo max mp).0 ≡ take max (queue mp))
      × (queue (drain_fifo max mp).1 ≡ drop max (queue mp))
unfolding drain_fifo
drain_fifo-queue max mp = drain_loop-pending max mp.order mp

-- The queue depends only on what the map answers at its ids.
pending_cong :
    (order : List Hash256) (m n : Assoc Transaction)
    → ((k : Hash256) → elem k order ≡ true → lookup k m ≡ lookup k n)
    → pending order m ≡ pending order n
pending_cong [] m n h = unfold pending in refl
pending_cong (k ∷ order) m n h =
    step (Option-cases (lookup k m)) (pending_cong order m n (λ j e. h j (later j e))) (
      pending_cong order (map_remove k m) (map_remove k n)
        (λ j e. lookup-remove k j m ∙ rw (h j (later j e)) (sym (lookup-remove k j n))))
  where
    later : (j : Hash256) → elem j order ≡ true → elem j (k ∷ order) ≡ true
    later j e = unfold elem in ground arith

    here : elem k (k ∷ order) ≡ true
    here = unfold elem in ground (arith, bytes_eq_refl k)

    step :
        (lookup k m ≡ none) ⊎ ((tx : Transaction) × (lookup k m ≡ some tx))
        → pending order m ≡ pending order n
        → pending order (map_remove k m) ≡ pending order (map_remove k n)
        → pending (k ∷ order) m ≡ pending (k ∷ order) n
    step (inl e) same removed =
        pending_skip k order m e ∙ same ∙ sym (pending_skip k order n (sym (h k here) ∙ e))
    step (inr (tx, e)) same removed =
        pending_pop k order tx m e
        ∙ ap (◌∷◌ tx) removed
        ∙ sym (pending_pop k order tx n (sym (h k here) ∙ e))

-- What an id at the end of the queue adds: nothing, if it stands in the queue already.
abbrev tail_of : Bool → Option Transaction → List Transaction
tail_of true o = []
tail_of false none = []
tail_of false (some tx) = tx ∷ []

tail_missing :
    (x k : Hash256) (order : List Hash256) (m : Assoc Transaction)
    → lookup x m ≡ none
    → tail_of (elem k order) (lookup k m) ≡ tail_of (elem k (x ∷ order)) (lookup k m)
unfolding elem
tail_missing x k order m e = elim (Bool-cases (bytes_eq x k)) [
  | inl same ↦ ground (arith, bytes_eq_iff x k)
  | inr differ ↦ rw differ
]

tail_removed :
    (x k : Hash256) (order : List Hash256) (m : Assoc Transaction)
    → tail_of (elem k order) (lookup k (map_remove x m)) ≡ tail_of (elem k (x ∷ order)) (lookup k m)
unfolding elem
tail_removed x k order m = ground (arith, lookup-remove x k m)

pending_snoc :
    (order : List Hash256) (k : Hash256) (m : Assoc Transaction)
    → pending (order ++ (k ∷ [])) m ≡ pending order m ++ tail_of (elem k order) (lookup k m)
pending_snoc [] k m = unfold pending elem in ground arith
pending_snoc (x ∷ order) k m =
    step (Option-cases (lookup x m)) (pending_snoc order k m)
      (pending_snoc order k (map_remove x m))
  where
    step :
        (lookup x m ≡ none) ⊎ ((tx : Transaction) × (lookup x m ≡ some tx))
        → pending (order ++ (k ∷ [])) m ≡ pending order m ++ tail_of (elem k order) (lookup k m)
        → pending (order ++ (k ∷ [])) (map_remove x m)
          ≡ pending order (map_remove x m) ++ tail_of (elem k order) (lookup k (map_remove x m))
        → pending (x ∷ (order ++ (k ∷ []))) m
          ≡ pending (x ∷ order) m ++ tail_of (elem k (x ∷ order)) (lookup k m)
    step (inl e) same removed =
        rw (pending_skip x (order ++ (k ∷ [])) m e, pending_skip x order m e)
          (same ∙ ap (λ t. pending order m ++ t) (tail_missing x k order m e))
    step (inr (tx, e)) same removed =
        rw (pending_pop x (order ++ (k ∷ [])) tx m e, pending_pop x order tx m e)
          (ap (◌∷◌ tx)
            (removed ∙ ap (λ t. pending order (map_remove x m) ++ t) (tail_removed x k order m)))

module _ (b3 : Blake3) where
  unseen :
      (tx : Transaction) (order : List Hash256) (m : Assoc Transaction)
      → elem tx.id order ≡ false
      → pending order (insert tx.id tx m) ≡ pending order m
  unseen tx order m h =
      pending_cong order (insert tx.id tx m) m
        (λ k e. ground (arith, lookup-insert tx.id k tx m, bytes_eq_iff tx.id k))

  -- A transaction that is admitted joins the end of the queue, if its id does not stand in `order`.
  pub queue-add_tx :
      (tx : Transaction) (mp : Mempool)
      → IsValid b3 mp
      → Admitted b3 tx mp
      → elem tx.id mp.order ≡ false
      → queue (add_tx b3 tx mp).1 ≡ queue mp ++ (tx ∷ [])
  queue-add_tx tx mp v a h = rw (add_tx-Admitted b3 tx mp v a) (
      pending_snoc mp.order tx.id (insert tx.id tx mp.by_id)
      ∙ ap₂ ◌++◌ (unseen tx mp.order mp.by_id h)
          (rw (h, lookup-insert tx.id tx.id tx mp.by_id, bytes_eq_refl tx.id)))

  removed-Admitted :
      (tx : Transaction) (mp : Mempool)
      → IsValid b3 mp
      → lookup tx.id mp.by_id ≡ some tx
      → Admitted b3 tx (drop_tx tx.id tx mp)
  unfolding drop_tx saturating_sub
  removed-Admitted tx mp v e = record {
    id_valid = (v.keyed tx.id tx e).1;
    fresh = rw (lookup-remove tx.id tx.id mp.by_id, bytes_eq_refl tx.id);
    room = omega (arith, length-remove tx.id tx mp.by_id v.unique e, v.few);
    fits =
        omega (arith, total-remove payload_length tx.id tx mp.by_id v.unique e, v.counted, v.small);
  }

  restored :
      (tx : Transaction) (order : List Hash256) (m : Assoc Transaction)
      → lookup tx.id m ≡ some tx
      → pending order (insert tx.id tx (map_remove tx.id m)) ≡ pending order m
  restored tx order m e = pending_cong order (insert tx.id tx (map_remove tx.id m)) m (λ k _.
      ground (
        arith,
        lookup-insert tx.id k tx (map_remove tx.id m),
        lookup-remove tx.id k m,
        bytes_eq_iff tx.id k,
      ))

  -- A transaction that is removed and then added again gets back the place in the queue that it
  -- had, before all that entered behind it.
  pub queue-add_tx-remove :
      (tx : Transaction) (mp : Mempool)
      → IsValid b3 mp
      → lookup tx.id mp.by_id ≡ some tx
      → queue (add_tx b3 tx (remove tx.id mp).1).1 ≡ queue mp
  queue-add_tx-remove tx mp v e =
      rw
        (
          remove_known tx.id tx mp e,
          add_tx-Admitted b3 tx (drop_tx tx.id tx mp) (drop_tx-IsValid b3 tx.id tx mp v e)
              (removed-Admitted tx mp v e),
        )
        (unfold drop_tx in
          pending_snoc mp.order tx.id (insert tx.id tx (map_remove tx.id mp.by_id))
          ∙ rw (v.queued tx.id tx e, append-nil) (restored tx mp.order mp.by_id e))

  pending-length :
      (order : List Hash256) (mp : Mempool)
      → IsValid b3 (with_order order mp)
      → length (pending order mp.by_id) ≡ length mp.by_id
  unfolding drop_tx
  pending-length [] mp v = unfold pending in none_left mp.by_id v.queued
    where
      none_left :
          (m : Assoc Transaction)
          → ((k : Hash256) (tx : Transaction) → lookup k m ≡ some tx → elem k [] ≡ true)
          → 0 ≡ length m
      none_left [] h = refl
      none_left ((k, tx) ∷ m) h = unfold lookup elem in ground (arith, h k tx, bytes_eq_refl k)
  pending-length (k ∷ order) mp v =
      step (Option-cases (lookup k mp.by_id)) (pending-length order mp)
        (λ tx. pending-length order (drop_tx k tx mp))
    where
      step :
          (lookup k mp.by_id ≡ none) ⊎ ((tx : Transaction) × (lookup k mp.by_id ≡ some tx))
          → (IsValid b3 (with_order order mp) → length (pending order mp.by_id) ≡ length mp.by_id)
          → ((tx : Transaction)
              → IsValid b3 (with_order order (drop_tx k tx mp))
              → length (pending order (drop_tx k tx mp).by_id) ≡ length (drop_tx k tx mp).by_id)
          → length (pending (k ∷ order) mp.by_id) ≡ length mp.by_id
      step (inl e) skipped popped =
          rw (pending_skip k order mp.by_id e) (skipped (skip-IsValid b3 k order mp v e))
      step (inr (tx, e)) skipped popped = rw (pending_pop k order tx mp.by_id e) (
          omega (
            arith,
            popped tx (pop-IsValid b3 k order tx mp v e),
            length-remove k tx mp.by_id v.unique e,
          ))

  -- `drain_fifo` returns as many transactions as asked for, or all that the pool has.
  pub length-drain_fifo :
      (max : ℕ) (mp : Mempool) → IsValid b3 mp → length (drain_fifo max mp).0 ≡ min max (len mp)
  length-drain_fifo max mp v =
      ap length (drain_fifo-queue max mp).0
      ∙ length-take max (queue mp)
      ∙ ap (min max) (pending-length mp.order mp v)
