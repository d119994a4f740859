-- ===== src/Node/Responder.antt =====
-- EGG-Chain/crates/egg-node/src/lib.rs: `ChainProvider` and `run_responder_once`, from the accepted
-- connection on. The chain state is only read.
use egg_project.Prelude.{ℕ, zero, suc, not, List, [], Result, ok, err, map_err, if◌then◌else◌}
use egg_project.Types.{Hash256, BlockHeader}
use egg_project.Exec.{◌>>=◌, ◌>>◌}
use egg_project.Kv.{KvStore}
use egg_project.Crypto.Hashing.{Blake3}
use egg_project.Net.Message.{
  Message, hello, hello_ack, get_headers, headers, get_block, block_found, block_not_found, ping,
  pong,
}
use egg_project.Net.Peer.Defs.{is_ready}
use egg_project.Net.Peer.Handlers.{handle_get_headers}
use egg_project.Store.Records.{StoreError}
use egg_project.Store.Ops.{has_block, get_block as stored_block}
use egg_project.Chain.Defs.{ChainState, store_error}
use egg_project.Chain.Queries.{get_headers_after}
use egg_project.Node.Session.{Serving, writing, either, deliver}
use egg_project.Node.Defs.{
  chain, out_of_fuel, Input, send, recv, Incoming, message, timeout, closed, fault, incoming,
}

module _ (kv : KvStore) where
  open kv use {State}

  -- `unwrap_or_default`
  unfoldable pub headers_or_none : {E : Type 0} → Result E (List BlockHeader) → List BlockHeader
  headers_or_none (ok hs) = hs
  headers_or_none (err _) = []

  -- `ChainProvider::get_headers_after`
  unfoldable pub provided : ChainState State → Hash256 → ℕ → List BlockHeader
  unfolding headers_or_none get_headers_after
  provided st start max = headers_or_none (get_headers_after kv start max st).0

  module _ (st : ChainState State) where
    unfoldable pub asked : {A : Type 0} → (State → Result StoreError A) → Serving A
    asked f r = (map_err (λ e. chain (store_error e)) (f st.store), r)

    unfoldable pub answer_block : Hash256 → Serving (Unit {0})
    unfolding asked has_block stored_block writing send either ◌>>=◌
    answer_block id = do
      have ← asked (has_block kv id)
      either (not have) (writing (send (block_not_found id)))
          do blk ← asked (stored_block kv id); writing (send (block_found id blk))

    -- `match msg`, once the handshake is done.
    unfoldable pub answer : Message → Serving (Unit {0})
    unfolding provided writing send answer_block
    answer (get_headers start max) r = writing (send (handle_get_headers (provided st) start max)) r
    answer (get_block id) r = answer_block id r
    answer (hello g) r = (ok tt, r)
    answer (hello_ack g) r = (ok tt, r)
    answer (headers hs) r = (ok tt, r)
    answer (block_found id block) r = (ok tt, r)
    answer (block_not_found id) r = (ok tt, r)
    answer (ping nonce) r = (ok tt, r)
    answer (pong nonce) r = (ok tt, r)

    unfoldable pub answer_ready : Message → Serving (Unit {0})
    unfolding answer
    answer_ready msg r = if is_ready r.peer then answer msg r else (ok tt, r)

    -- The body of the loop behind `recv`.
    unfoldable pub serve : Blake3 → Message → Serving (Unit {0})
    unfolding deliver answer_ready ◌>>◌
    serve b3 msg = deliver b3 msg >> answer_ready msg

    -- What follows on `recv`, with the rest of the loop.
    unfoldable pub on_incoming : Blake3 → Incoming → Serving (Unit {0}) → Serving (Unit {0})
    unfolding serve ◌>>◌
    on_incoming b3 (message msg) next r = (serve b3 msg >> next) r
    on_incoming b3 timeout next r = next r
    on_incoming b3 closed next r = (ok tt, r)
    on_incoming b3 (fault e) next r = (err e, r)

    -- The loop, with a bound on its rounds.
    unfoldable pub respond : Blake3 → ℕ → Input → Serving (Unit {0})
    unfolding recv on_incoming
    respond b3 zero i r = (err out_of_fuel, r)
    respond b3 (suc n) i r = on_incoming b3 (incoming (recv i).0) (respond b3 n (recv i).1) r
