-- ===== src/Mempool/Defs.antt =====
-- EGG-Chain/crates/egg-chain/src/mempool.rs: the transaction pool and its operations. A method
-- returns its result and the pool that it leaves.
use egg_project.Prelude.{
  ℕ, zero, suc, ◌*◌, Bool, true, false, not, ◌||◌, Option, none, some, List, [], ◌∷◌, ◌++◌, length,
  Result, ok, err, ltb, leb, bytes_eq, if◌then◌else◌,
}
use egg_project.Prelude.Words.{saturating_add, saturating_sub}
use egg_project.Prelude.Assoc.{Assoc, lookup, contains_key, insert, remove as map_remove}
use egg_project.Types.{Hash256, Transaction}
use egg_project.Crypto.Hashing.{Blake3, tx_id_from_payload, validate_tx_id}

abbrev pub default_max_txs : ℕ
default_max_txs = 100000

abbrev pub default_max_total_bytes : ℕ
default_max_total_bytes = 64 * 1024 * 1024

pub data AddOutcome : Type 0 where
  added already_known : AddOutcome

-- `invalid_tx_id expected got`
pub data MempoolError : Type 0 where
  invalid_tx_id : Hash256 → Hash256 → MempoolError
  tx_too_large : ℕ → MempoolError
  full : MempoolError

pub record Mempool : Type 0 where
  pub by_id : Assoc Transaction
  pub order : List Hash256
  pub total_payload_bytes : ℕ

-- `fn new()`
abbrev pub empty : Mempool
empty = record { by_id = []; order = []; total_payload_bytes = 0 }

abbrev pub len : Mempool → ℕ
len mp = length mp.by_id

unfoldable pub is_empty : Mempool → Bool
is_empty mp = elim mp.by_id [ [] ↦ true | _ ↦ false ]

unfoldable pub contains : Hash256 → Mempool → Bool
contains txid mp = contains_key txid mp.by_id

unfoldable pub get : Hash256 → Mempool → Option Transaction
get txid mp = lookup txid mp.by_id

module _ (b3 : Blake3) where
  unfoldable pub add_tx : Transaction → Mempool → Result MempoolError AddOutcome × Mempool
  add_tx tx mp =
      let expected = tx_id_from_payload b3 tx.payload in
      if not (bytes_eq tx.id expected) || not (validate_tx_id b3 tx)
      then (err (invalid_tx_id expected tx.id), mp)
      else if contains_key tx.id mp.by_id
      then (ok already_known, mp)
      else if ltb default_max_total_bytes (length tx.payload)
      then (err (tx_too_large (length tx.payload)), mp)
      else if leb default_max_txs (length mp.by_id)
      then (err full, mp)
      else if ltb default_max_total_bytes
          (saturating_add mp.total_payload_bytes (length tx.payload))
      then (err full, mp)
      else (
        ok added,
        record {
          by_id = insert tx.id tx mp.by_id;
          order = mp.order ++ (tx.id ∷ []);
          total_payload_bytes = saturating_add mp.total_payload_bytes (length tx.payload);
        },
      )

-- The map without the key, and the total less the transaction that it had.
unfoldable pub drop_tx : Hash256 → Transaction → Mempool → Mempool
drop_tx txid tx mp = record mp {
  by_id = map_remove txid mp.by_id;
  total_payload_bytes = saturating_sub mp.total_payload_bytes (length tx.payload);
}

-- `order` keeps the id.
unfoldable pub remove : Hash256 → Mempool → Option Transaction × Mempool
unfolding drop_tx
remove txid mp = elim (lookup txid mp.by_id) [
  | none ↦ (none, mp)
  | some tx ↦ (some tx, drop_tx txid tx mp)
]

-- The `while` loop of `drain_fifo`, over the ids in `order`: `room` is `max - out.len()`.
unfoldable pub drain_loop : ℕ → List Hash256 → Mempool → List Transaction × Mempool
unfolding drop_tx
drain_loop zero order mp = ([], record mp { order = order })
drain_loop (suc room) [] mp = ([], record mp { order = [] })
drain_loop (suc room) (txid ∷ order) mp = elim (lookup txid mp.by_id) [
  | none ↦ drain_loop (suc room) order mp
  | some tx ↦ let (out, mp') = drain_loop room order (drop_tx txid tx mp) in (tx ∷ out, mp')
]

unfoldable pub drain_fifo : ℕ → Mempool → List Transaction × Mempool
unfolding drain_loop
drain_fifo max mp = drain_loop max mp.order mp
