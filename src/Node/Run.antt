-- ===== src/Node/Run.antt =====
-- EGG-Chain/crates/egg-node/src/lib.rs: `run_responder_once` and `run_syncer_once`, from the
-- connection on.
use egg_project.Prelude.{ℕ, ◌+◌, [], ◌∷◌, Result, ok, err}
use egg_project.Bytes.{Bytes}
use egg_project.Types.{ChainSpec}
use egg_project.Kv.{KvStore}
use egg_project.Crypto.Hashing.{Blake3}
use egg_project.Net.Message.{Greeting}
use egg_project.Net.Peer.Defs.{PeerMachine, inbound, outbound, new, enable_header_sync}
use egg_project.Chain.Defs.{ChainStateError, ChainState}
use egg_project.Chain.Open.{open_or_init}
use egg_project.Node.Defs.{NodeError, chain, Input, Output}
use egg_project.Node.Session.{Session}
use egg_project.Node.Responder.{respond}
use egg_project.Node.Syncer.{InflightEntry, Syncer}
use egg_project.Node.Download.{sync}
use egg_project.Prelude.Assoc.{Assoc}

-- "egg-node/"
abbrev agent_prefix : Bytes → Bytes
agent_prefix name = b'e' ∷ b'g' ∷ b'g' ∷ b'-' ∷ b'n' ∷ b'o' ∷ b'd' ∷ b'e' ∷ b'/' ∷ name

-- "egg-node/responder"
abbrev pub responder_agent : Bytes
responder_agent = agent_prefix (b'r' ∷ b'e' ∷ b's' ∷ b'p' ∷ b'o' ∷ b'n' ∷ b'd' ∷ b'e' ∷ b'r' ∷ [])

-- "egg-node/syncer"
abbrev pub syncer_agent : Bytes
syncer_agent = agent_prefix (b's' ∷ b'y' ∷ b'n' ∷ b'c' ∷ b'e' ∷ b'r' ∷ [])

abbrev pub local_info : {S : Type 0} → ℕ → Bytes → ChainState S → Greeting
local_info nonce agent st = record {
  chain_id = st.meta.chain_id;
  genesis_id = st.meta.genesis_id;
  tip = record { height = st.tip.height; hash = st.tip.hash };
  node_nonce = nonce;
  agent = agent;
}

-- A session with a new machine, whose creation reads the clock.
abbrev pub session_of : (ℕ → PeerMachine) → Output → Session
session_of machine o = record {
  output = record o { readings = o.readings + 1 };
  peer = machine (o.clock o.readings);
}

module _ (kv : KvStore) (b3 : Blake3) (fuel : ℕ) where
  open kv use {State}

  unfoldable pub respond_opened :
      ℕ
      → Input
      → Output
      → Result ChainStateError (ChainState State) × State
      → Result NodeError (Unit {0}) × Output
  unfolding respond
  respond_opened n i o (ok st, s) =
      let (r, x) =
        respond kv st b3 n i (session_of (new inbound (local_info 2002 responder_agent st)) o) in
      (r, x.output)
  respond_opened n i o (err e, s) = (err (chain e), o)

  unfoldable pub run_responder_once :
      ℕ → Input → Output → ChainSpec → State → Result NodeError (Unit {0}) × Output
  unfolding respond_opened open_or_init
  run_responder_once n i o spec s = respond_opened n i o (open_or_init kv b3 fuel spec s)

  module _ (order : Assoc InflightEntry → Assoc InflightEntry) where
    abbrev pub new_syncer : ℕ → Output → ChainState State → Syncer State
    new_syncer batch_max o st = record {
      session =
          session_of
            (λ now.
              enable_header_sync batch_max (new outbound (local_info 1001 syncer_agent st) now))
            o;
      chain_state = st;
      downloaded_ids = [];
      last_progress = 0;
      pending = [];
      inflight = [];
    }

    -- What was sent, and the store, when the session is over.
    unfoldable pub sync_opened :
        ℕ
        → ℕ
        → Input
        → Output
        → Result ChainStateError (ChainState State) × State
        → Result NodeError (Unit {0}) × (Output × State)
    unfolding sync
    sync_opened batch_max n i o (ok st, s) =
        let (r, x) = sync kv fuel b3 order n i (new_syncer batch_max o st) in
        (r, (x.session.output, x.chain_state.store))
    sync_opened batch_max n i o (err e, s) = (err (chain e), (o, s))

    unfoldable pub run_syncer_once :
        ℕ → ℕ → Input → Output → ChainSpec → State → Result NodeError (Unit {0}) × (Output × State)
    unfolding sync_opened open_or_init
    run_syncer_once batch_max n i o spec s =
        sync_opened batch_max n i o (open_or_init kv b3 fuel spec s)
