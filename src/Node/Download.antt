-- ===== src/Node/Download.antt =====
-- EGG-Chain/crates/egg-node/src/lib.rs: the blocks phase of `run_syncer_once`, and the whole of it from
-- `peer.start()` on. The order in which `inflight.iter()` yields its entries is a parameter.
use egg_project.Prelude.{
  ℕ, zero, suc, ◌+◌, ◌-◌, min, Bool, true, false, not, ◌&&◌, Option, none, some, List, [], ◌∷◌,
  ◌++◌, length, ok, err, ltb, leb, bytes_eq, if◌then◌else◌,
}
use egg_project.Prelude.Assoc.{Assoc, lookup, contains_key, insert, remove}
use egg_project.Types.{Hash256, Block}
use egg_project.Exec.{◌>>=◌, ◌>>◌}
use egg_project.Kv.{KvStore}
use egg_project.Crypto.Hashing.{Blake3, hash_header}
use egg_project.Net.Message.{
  Message, hello, hello_ack, get_headers, headers, get_block, block_found, block_not_found, ping,
  pong,
}
use egg_project.Net.Peer.Defs.{IdSet}
use egg_project.Store.Ops.{has_block, has_header}
use egg_project.Chain.Ingest.{ingest_block}
use egg_project.Chain.Validate.{validate_best_chain}
use egg_project.Node.Defs.{
  io, protocol, out_of_fuel, Breach, block_sync_idle, unexpected_found, found_without_header,
  found_other_header, unexpected_not_found, not_found_after_retries, timeout_after_retries,
  max_block_retries, block_window, per_req_resend_after, unexpected_eof, Input, recv, Incoming,
  message, timeout, closed, fault, incoming,
}
use egg_project.Node.Session.{either, deliver, ask_block, greet, count_timeout}
use egg_project.Node.Syncer.{
  InflightEntry, Syncing, on_session, on_chain, asked, fails, returns, modify, this, now_at,
  progress, is_idle, sync_headers,
}

abbrev pub is_empty : {A : Type 0} → List A → Bool
is_empty [] = true
is_empty (a ∷ xs) = false

abbrev pub is_expired : ℕ → InflightEntry → Bool
is_expired now e = leb per_req_resend_after (now - e.last_sent)

-- The entries whose last request is 2 seconds old, or older.
unfoldable pub expired : ℕ → Assoc InflightEntry → List Hash256
expired now [] = []
expired now ((id, e) ∷ m) = let rest = expired now m in if is_expired now e then id ∷ rest else rest

-- `saturating_add` on `u8`
abbrev pub next_retries : InflightEntry → ℕ
next_retries e = min (e.retries + 1) 255

module _ (kv : KvStore) where
  open kv use {State}

  unfoldable pub refuse : {A : Type 0} → Breach → Syncing kv A
  unfolding fails
  refuse b = fails kv (protocol b)

  unfoldable pub push_pending : Hash256 → Syncing kv (Unit {0})
  unfolding modify
  push_pending id = modify kv (λ s. record s { pending = s.pending ++ id ∷ [] })

  -- `for id in downloaded_ids.into_iter()`
  unfoldable pub queue_missing : List Hash256 → IdSet → Syncing kv (Unit {0})
  unfolding either asked has_block returns push_pending ◌>>=◌ ◌>>◌
  queue_missing [] seen s = (ok tt, s)
  queue_missing (id ∷ ids) seen s =
      either (contains_key id seen) (queue_missing ids seen)
        (do
          have ← asked kv (has_block kv id)
          either have (returns kv tt) (push_pending id)
          queue_missing ids (insert id tt seen))
        s

  -- `inflight.insert(id, ..)`, and the changes through `inflight.get_mut(&id)`
  unfoldable pub track : Hash256 → ℕ → ℕ → Syncing kv (Unit {0})
  unfolding modify
  track id retries now = modify kv (λ s. record s {
    inflight = insert id (record { retries = retries; last_sent = now }) s.inflight;
  })

  unfoldable pub request_new : ℕ → Hash256 → Syncing kv (Unit {0})
  unfolding on_session ask_block track ◌>>◌
  request_new now id = on_session kv (ask_block id) >> track id 0 now

  -- `while inflight.len() < BLOCK_WINDOW`, on the queue as it is at its start.
  unfoldable pub fill_window : ℕ → List Hash256 → Syncing kv (Unit {0})
  unfolding modify asked has_block either request_new ◌>>=◌ ◌>>◌
  fill_window now [] s = (ok tt, s)
  fill_window now (id ∷ rest) s =
      either (ltb (length s.inflight) block_window)
        (do
          modify kv (λ s. record s { pending = rest })
          have ← asked kv (has_block kv id)
          either have (fill_window now rest) (request_new now id >> fill_window now rest))
        (λ s. (ok tt, s)) s

  -- The request sent again.
  unfoldable pub request_again : Hash256 → InflightEntry → ℕ → Syncing kv (Unit {0})
  unfolding track on_session ask_block ◌>>◌
  request_again id e now = track id (next_retries e) now >> on_session kv (ask_block id)

  -- `Message::BlockNotFound { id }`, for the entry of the id.
  unfoldable pub on_not_found : Hash256 → Option InflightEntry → Syncing kv (Unit {0})
  unfolding refuse either now_at request_again ◌>>=◌
  on_not_found id none = refuse (unexpected_not_found id)
  on_not_found id (some e) =
      either (leb max_block_retries e.retries) (refuse (not_found_after_retries id))
        do now ← now_at kv; request_again id e now

  -- One round of `for id in resend_ids`, for the entry of the id.
  unfoldable pub resend_one : ℕ → Hash256 → Option InflightEntry → Syncing kv (Unit {0})
  unfolding returns refuse either on_session count_timeout request_again ◌>>◌
  resend_one now id none = returns kv tt
  resend_one now id (some e) =
      either (leb max_block_retries e.retries) (refuse (timeout_after_retries id))
        do on_session kv count_timeout; request_again id e now

  unfoldable pub resend : ℕ → List Hash256 → Syncing kv (Unit {0})
  unfolding resend_one ◌>>◌
  resend now [] s = (ok tt, s)
  resend now (id ∷ ids) s = (resend_one now id (lookup id s.inflight) >> resend now ids) s

  unfoldable pub fill : Syncing kv (Unit {0})
  unfolding now_at fill_window ◌>>=◌
  fill = do now ← now_at kv; (λ s. fill_window now s.pending s)

  unfoldable pub refuse_idle : Syncing kv (Unit {0})
  unfolding this refuse ◌>>=◌
  refuse_idle = do s ← this kv; refuse (block_sync_idle (length s.pending) (length s.inflight))

  unfoldable pub queue_downloaded : Syncing kv (Unit {0})
  unfolding this queue_missing ◌>>=◌
  queue_downloaded = do s ← this kv; queue_missing s.downloaded_ids []

  module _ (order : Assoc InflightEntry → Assoc InflightEntry) where
    -- The tick after a timeout.
    unfoldable pub tick : Syncing kv (Unit {0})
    unfolding now_at this resend expired ◌>>=◌
    tick = do now ← now_at kv; s ← this kv; resend now (expired now (order s.inflight))

  module _ (fuel : ℕ) (b3 : Blake3) where
    -- `Message::BlockFound { id, block }` behind `inflight.remove`
    unfoldable pub take_block : Hash256 → Block → Syncing kv (Unit {0})
    unfolding modify asked has_header either refuse on_chain ingest_block progress ◌>>=◌ ◌>>◌
    take_block id block = do
      modify kv (λ s. record s { inflight = remove id s.inflight })
      has_h ← asked kv (has_header kv id)
      either (not has_h) (refuse (found_without_header id)) (
          either (not (bytes_eq (hash_header b3 block.header) id))
            (refuse (found_other_header id (hash_header b3 block.header)))
            (on_chain kv (ingest_block kv fuel b3 block) >> progress kv))

    unfoldable pub on_found : Hash256 → Block → Syncing kv (Unit {0})
    unfolding either refuse take_block
    on_found id block s =
        either (not (contains_key id s.inflight)) (refuse (unexpected_found id))
          (take_block id block) s

    -- `match msg`
    unfoldable pub match_block : Message → Syncing kv (Unit {0})
    unfolding on_found on_not_found
    match_block (block_found id block) s = on_found id block s
    match_block (block_not_found id) s = on_not_found id (lookup id s.inflight) s
    match_block (hello g) s = (ok tt, s)
    match_block (hello_ack g) s = (ok tt, s)
    match_block (get_headers start max) s = (ok tt, s)
    match_block (headers hs) s = (ok tt, s)
    match_block (get_block id) s = (ok tt, s)
    match_block (ping nonce) s = (ok tt, s)
    match_block (pong nonce) s = (ok tt, s)

    unfoldable pub on_block_message : Message → Syncing kv (Unit {0})
    unfolding on_session deliver match_block ◌>>◌
    on_block_message msg = on_session kv (deliver b3 msg) >> match_block msg

    module _ (order : Assoc InflightEntry → Assoc InflightEntry) where
      -- The end of a round, and the rounds that follow.
      unfoldable pub blocks_incoming : Incoming → Syncing kv (Unit {0}) → Syncing kv (Unit {0})
      unfolding on_block_message tick fails ◌>>◌
      blocks_incoming (message msg) next = on_block_message msg >> next
      blocks_incoming timeout next = tick order >> next
      blocks_incoming closed next = fails kv (io unexpected_eof)
      blocks_incoming (fault e) next = fails kv e

      -- The second loop, with a bound on its rounds.
      unfoldable pub download : ℕ → Input → Syncing kv (Unit {0})
      unfolding fill this either returns is_idle refuse_idle blocks_incoming recv incoming ◌>>=◌
          ◌>>◌
      download zero i s = (err out_of_fuel, s)
      download (suc n) i s =
          (do
            fill
            s ← this kv
            either (is_empty s.pending && is_empty s.inflight) (returns kv tt) do
              idle ← is_idle kv
              either idle refuse_idle
                  (blocks_incoming (incoming (recv i).0) (download n (recv i).1)))
            s

      -- `run_syncer_once` from `peer.start()` on.
      unfoldable pub sync : ℕ → Input → Syncing kv (Unit {0})
      unfolding on_session greet progress sync_headers queue_downloaded download on_chain
          validate_best_chain ◌>>=◌ ◌>>◌
      sync n i = do
        on_session kv greet
        progress kv
        left ← sync_headers kv b3 n i
        queue_downloaded
        progress kv
        download n left
        on_chain kv (validate_best_chain kv b3 fuel)
