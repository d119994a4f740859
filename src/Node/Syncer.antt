-- ===== src/Node/Syncer.antt =====
-- EGG-Chain/crates/egg-node/src/lib.rs: the state of `run_syncer_once`, and its headers phase.
use egg_project.Prelude.{
  ℕ, zero, suc, ◌-◌, Bool, true, false, Option, none, some, List, [], ◌∷◌, ◌++◌, Result, ok, err,
  map_err, ltb,
}
use egg_project.Prelude.Assoc.{Assoc}
use egg_project.Types.{Hash256, BlockHeader}
use egg_project.Exec.{Exec, ◌>>=◌, ◌>>◌}
use egg_project.Kv.{KvStore}
use egg_project.Crypto.Hashing.{Blake3, hash_header}
use egg_project.Net.Message.{
  Message, hello, hello_ack, get_headers, headers, get_block, block_found, block_not_found, ping,
  pong,
}
use egg_project.Store.Records.{StoreError}
use egg_project.Chain.Defs.{ChainState, Run, store_error}
use egg_project.Chain.Ingest.{ingest_header}
use egg_project.Node.Defs.{
  NodeError, io, chain, protocol, out_of_fuel, header_sync_idle, session_idle_timeout,
  unexpected_eof, Input, instant_now, recv, Incoming, message, timeout, closed, fault, incoming,
}
use egg_project.Node.Session.{Session, Serving, writing, either, deliver}

pub record InflightEntry : Type 0 where
  pub retries : ℕ
  pub last_sent : ℕ

-- The variables of `run_syncer_once` that change. The map `inflight` is that of Prelude/Assoc.
pub record Syncer (S : Type 0) : Type 0 where
  pub session : Session
  pub chain_state : ChainState S
  pub downloaded_ids : List Hash256
  pub last_progress : ℕ
  pub pending : List Hash256
  pub inflight : Assoc InflightEntry

-- `if let Message::Headers { headers } = &msg`
unfoldable pub batch_of : Message → Option (List BlockHeader)
batch_of (headers hs) = some hs
batch_of (hello g) = none
batch_of (hello_ack g) = none
batch_of (get_headers start max) = none
batch_of (get_block id) = none
batch_of (block_found id block) = none
batch_of (block_not_found id) = none
batch_of (ping nonce) = none
batch_of (pong nonce) = none

module _ (kv : KvStore) where
  open kv use {State}

  abbrev pub Syncing : Type 0 → Type 0
  Syncing A = Exec (Syncer State) NodeError A

  module _ {A : Type 0} where
    unfoldable pub on_session : Serving A → Syncing A
    on_session m s = let (a, x) = m s.session in (a, record s { session = x })

    -- A method of the chain state, with its error as `NodeError::Chain`.
    unfoldable pub on_chain : Run kv A → Syncing A
    on_chain m s = let (a, x) = m s.chain_state in (map_err chain a, record s { chain_state = x })

    unfoldable pub asked : (State → Result StoreError A) → Syncing A
    asked f s = (map_err (λ e. chain (store_error e)) (f s.chain_state.store), s)

    unfoldable pub fails : NodeError → Syncing A
    fails e s = (err e, s)

    unfoldable pub returns : A → Syncing A
    returns a s = (ok a, s)

  unfoldable pub modify : (Syncer State → Syncer State) → Syncing (Unit {0})
  modify f s = (ok tt, f s)

  unfoldable pub this : Syncing (Syncer State)
  this s = (ok s, s)

  -- `Instant::now()`
  unfoldable pub now_at : Syncing ℕ
  unfolding on_session writing instant_now
  now_at = on_session (writing instant_now)

  -- `last_progress = Instant::now()`
  unfoldable pub progress : Syncing (Unit {0})
  unfolding now_at modify ◌>>=◌
  progress = do now ← now_at; modify (λ s. record s { last_progress = now })

  -- `Instant::now().duration_since(last_progress) > SESSION_IDLE_TIMEOUT`, which is 0 for a reading
  -- before `last_progress`.
  unfoldable pub is_idle : Syncing Bool
  unfolding now_at this returns ◌>>=◌
  is_idle = do now ← now_at; s ← this; returns (ltb session_idle_timeout (now - s.last_progress))

  module _ (b3 : Blake3) where
    -- `for h in headers.iter().cloned()`
    unfoldable pub ingest_headers : List BlockHeader → Syncing (Unit {0})
    unfolding modify on_chain ingest_header ◌>>=◌ ◌>>◌
    ingest_headers [] s = (ok tt, s)
    ingest_headers (h ∷ hs) s =
        (do
          modify (λ s. record s { downloaded_ids = s.downloaded_ids ++ hash_header b3 h ∷ [] })
          on_chain (ingest_header kv b3 h)
          ingest_headers hs)
          s

    -- What the loop does with a message; whether it ends there.
    unfoldable pub on_batch : Message → Option (List BlockHeader) → Syncing Bool
    unfolding on_session deliver returns progress ingest_headers ◌>>◌
    on_batch msg (some []) = on_session (deliver b3 msg) >> returns true
    on_batch msg (some (h ∷ hs)) = do
      progress
      ingest_headers (h ∷ hs)
      on_session (deliver b3 msg)
      returns false
    on_batch msg none = on_session (deliver b3 msg) >> returns false

    -- The end of a round, with the input that is left, and the rounds that follow.
    unfoldable pub headers_incoming : Incoming → Input → Syncing Input → Syncing Input
    unfolding on_batch batch_of either returns fails ◌>>=◌
    headers_incoming (message msg) i next = do
      done ← on_batch msg (batch_of msg)
      either done (returns i) next
    headers_incoming timeout i next = next
    headers_incoming closed i next = fails (io unexpected_eof)
    headers_incoming (fault e) i next = fails e

    -- The first loop, with a bound on its rounds; the input that it leaves.
    unfoldable pub sync_headers : ℕ → Input → Syncing Input
    unfolding is_idle either fails headers_incoming recv incoming ◌>>=◌
    sync_headers zero i s = (err out_of_fuel, s)
    sync_headers (suc n) i s =
        (do
          idle ← is_idle
          either idle (fails (protocol header_sync_idle))
              (headers_incoming (incoming (recv i).0) (recv i).1 (sync_headers n (recv i).1)))
          s
