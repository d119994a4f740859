-- ===== src/Node/SyncSettles.antt =====
-- The rounds of the calls of the blocks phase, outside its loop.
use egg_project.Prelude.{ℕ, ◌-◌, Option, none, some, List, [], ◌∷◌, length, Result, ok, ltb, leb}
use egg_project.Prelude.Assoc.{Assoc, lookup, contains_key, insert}
use egg_project.Types.{Hash256}
use egg_project.Kv.{KvStore}
use egg_project.Net.Peer.Defs.{IdSet}
use egg_project.Store.Records.{StoreError}
use egg_project.Store.Ops.{has_block}
use egg_project.Chain.Defs.{Run, store_error}
use egg_project.Node.Defs.{
  NodeError, Breach, protocol, max_block_retries, block_window, session_idle_timeout,
  block_sync_idle, unexpected_not_found, not_found_after_retries, timeout_after_retries,
}
use egg_project.Node.Session.{Serving, ask_block}
use egg_project.Node.Syncer.{
  InflightEntry, Syncer, Syncing, on_session, on_chain, asked, fails, returns, modify, this, now_at,
  progress, is_idle,
}
use egg_project.Node.Download.{
  expired, refuse, push_pending, queue_missing, track, request_new, fill_window, request_again,
  on_not_found, resend_one, resend, tick, fill, refuse_idle, queue_downloaded, next_retries,
}
use egg_project.Node.Settles.{
  IsSettled, Settles, Settles-bind, Settles-then, Settles-either, ask_block-Settles,
  count_timeout-Settles, instant_now-Settles, writing-Settles, of_chain,
}

module _ (kv : KvStore) where
  open kv use {State}

  module _ {A : Type 0} where
    pub session-Settles : (m : Serving A) → Settles m → Settles (on_session kv m)
    unfolding on_session
    session-Settles m h = record { yields = λ s. h.yields s.session }

    pub chain-Settles : (m : Run kv A) → Settles (on_chain kv m)
    unfolding on_chain
    chain-Settles m = record { yields = λ s. of_chain (λ e. e) (m s.chain_state).0 }

    pub asked-Settles : (f : State → Result StoreError A) → Settles (asked kv f)
    unfolding asked
    asked-Settles f = record { yields = λ s. of_chain store_error (f s.chain_state.store) }

    pub fails-Settles : (e : NodeError) → IsSettled e → Settles (fails kv {A = A} e)
    unfolding fails
    fails-Settles e h = record { yields = λ s. h }

    pub refuse-Settles : (b : Breach) → Settles (refuse kv {A = A} b)
    unfolding refuse
    refuse-Settles b = fails-Settles (protocol b) (λ q. cc q)

    pub returns-Settles : (a : A) → Settles (returns kv a)
    unfolding returns
    returns-Settles a = record { yields = λ s. tt }

  pub modify-Settles : (f : Syncer State → Syncer State) → Settles (modify kv f)
  unfolding modify
  modify-Settles f = record { yields = λ s. tt }

  pub this-Settles : Settles (this kv)
  unfolding this
  this-Settles = record { yields = λ s. tt }

  now_at-Settles : Settles (now_at kv)
  unfolding now_at
  now_at-Settles = session-Settles _ (writing-Settles _ instant_now-Settles)

  pub progress-Settles : Settles (progress kv)
  unfolding progress
  progress-Settles =
      Settles-bind _ _ now_at-Settles λ now. modify-Settles (λ s. record s { last_progress = now })

  pub is_idle-Settles : Settles (is_idle kv)
  unfolding is_idle
  is_idle-Settles = Settles-bind _ _ now_at-Settles λ now.
      Settles-bind _ _ this-Settles
        λ s. returns-Settles (ltb session_idle_timeout (now - s.last_progress))

  pub refuse_idle-Settles : Settles (refuse_idle kv)
  unfolding refuse_idle
  refuse_idle-Settles =
      Settles-bind _ _ this-Settles
        λ s. refuse-Settles (block_sync_idle (length s.pending) (length s.inflight))

  queue_missing-Settles : (ids : List Hash256) (seen : IdSet) → Settles (queue_missing kv ids seen)
  unfolding queue_missing push_pending
  queue_missing-Settles [] seen = record { yields = λ s. tt }
  queue_missing-Settles (id ∷ ids) seen = record {
    yields =
        (Settles-either (contains_key id seen) _ _ (queue_missing-Settles ids seen) (
          Settles-bind _ _ (asked-Settles (has_block kv id)) λ have.
            Settles-then _ _ (Settles-either have _ _ (returns-Settles tt) (modify-Settles _))
              (queue_missing-Settles ids (insert id tt seen)))).yields;
  }

  pub queue_downloaded-Settles : Settles (queue_downloaded kv)
  unfolding queue_downloaded
  queue_downloaded-Settles =
      Settles-bind _ _ this-Settles λ s. queue_missing-Settles s.downloaded_ids []

  ask-Settles : (id : Hash256) → Settles (on_session kv (ask_block id))
  ask-Settles id = session-Settles _ (ask_block-Settles id)

  track-Settles : (id : Hash256) (n now : ℕ) → Settles (track kv id n now)
  unfolding track
  track-Settles id n now = modify-Settles _

  fill_window-Settles : (now : ℕ) (ids : List Hash256) → Settles (fill_window kv now ids)
  unfolding fill_window request_new
  fill_window-Settles now [] = record { yields = λ s. tt }
  fill_window-Settles now (id ∷ rest) = record {
    yields = λ s.
        (Settles-either (ltb (length s.inflight) block_window) _ (λ x. (ok tt, x))
            (Settles-then _ _ (modify-Settles (λ x. record x { pending = rest })) (
              Settles-bind _ _ (asked-Settles (has_block kv id)) λ have.
                Settles-either have _ _ (fill_window-Settles now rest) (
                  Settles-then _ _ (Settles-then _ _ (ask-Settles id) (track-Settles id 0 now))
                    (fill_window-Settles now rest))))
            (record { yields = λ x. tt })).yields
          s;
  }

  fill_at-Settles :
      (now : ℕ) → Settles (let f : Syncing kv (Unit {0}) = λ s. fill_window kv now s.pending s in f)
  fill_at-Settles now = record { yields = λ s. (fill_window-Settles now s.pending).yields s }

  pub fill-Settles : Settles (fill kv)
  unfolding fill
  fill-Settles = Settles-bind _ _ now_at-Settles fill_at-Settles

  again-Settles : (id : Hash256) (e : InflightEntry) (now : ℕ) → Settles (request_again kv id e now)
  unfolding request_again
  again-Settles id e now = Settles-then _ _ (track-Settles id (next_retries e) now) (ask-Settles id)

  pub not_found-Settles : (id : Hash256) (o : Option InflightEntry) → Settles (on_not_found kv id o)
  unfolding on_not_found
  not_found-Settles id none = refuse-Settles (unexpected_not_found id)
  not_found-Settles id (some e) =
      Settles-either (leb max_block_retries e.retries) _ _
        (refuse-Settles (not_found_after_retries id))
        (Settles-bind _ _ now_at-Settles (again-Settles id e))

  resend_one-Settles :
      (now : ℕ) (id : Hash256) (o : Option InflightEntry) → Settles (resend_one kv now id o)
  unfolding resend_one
  resend_one-Settles now id none = returns-Settles tt
  resend_one-Settles now id (some e) =
      Settles-either (leb max_block_retries e.retries) _ _
        (refuse-Settles (timeout_after_retries id))
        (Settles-then _ _ (session-Settles _ count_timeout-Settles) (again-Settles id e now))

  resend-Settles : (now : ℕ) (ids : List Hash256) → Settles (resend kv now ids)
  unfolding resend
  resend-Settles now [] = record { yields = λ s. tt }
  resend-Settles now (id ∷ ids) = record {
    yields = λ s.
        (Settles-then _ _ (resend_one-Settles now id (lookup id s.inflight))
            (resend-Settles now ids)).yields
          s;
  }

  pub tick-Settles : (order : Assoc InflightEntry → Assoc InflightEntry) → Settles (tick kv order)
  unfolding tick
  tick-Settles order =
      Settles-bind _ _ now_at-Settles λ now.
        Settles-bind _ _ this-Settles λ s. resend-Settles now (expired now (order s.inflight))
