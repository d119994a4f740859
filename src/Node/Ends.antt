-- ===== src/Node/Ends.antt =====
-- The rounds that the loops of the two sessions take.
use egg_project.Prelude.{ℕ, zero, suc, ◌<◌, ◌≢◌, not, ◌&&◌, Result, ok, err, bytes_eq, arith}
use egg_project.Prelude.Assoc.{Assoc, lookup, contains_key, remove}
use egg_project.Types.{Hash256, Block, ChainSpec}
use egg_project.Exec.Yields.{Gives, Any, Yields-bind}
use egg_project.Kv.{KvStore}
use egg_project.Crypto.Hashing.{Blake3, hash_header}
use egg_project.Net.Message.{
  Message, hello, hello_ack, get_headers, headers, get_block, block_found, block_not_found, ping,
  pong,
}
use egg_project.Store.Ops.{has_header}
use egg_project.Chain.Defs.{ChainStateError, ChainState}
use egg_project.Chain.Ingest.{ingest_block}
use egg_project.Chain.Open.{open_or_init}
use egg_project.Chain.Validate.{validate_best_chain}
use egg_project.Node.Defs.{
  NodeError, io, out_of_fuel, unexpected_found, found_without_header, found_other_header,
  unexpected_eof, Input, Output, recv, Incoming, message, timeout, closed, fault, incoming,
}
use egg_project.Node.Session.{Serving, greet}
use egg_project.Node.Responder.{on_incoming, respond}
use egg_project.Node.Syncer.{InflightEntry, Syncing}
use egg_project.Node.Download.{
  is_empty, take_block, on_found, match_block, on_block_message, blocks_incoming, download, sync,
}
use egg_project.Node.Run.{respond_opened, run_responder_once, sync_opened, run_syncer_once}
use egg_project.Node.HeadersEnd.{delivered, sync_headers-Leaves}
use egg_project.Node.Sizes.{size, Goes, recv-Goes}
use egg_project.Node.Settles.{
  IsSettled, Settles, Settles-bind, Settles-then, Settles-either, greet-Settles, serve-Settles,
}
use egg_project.Node.SyncSettles.{
  session-Settles, chain-Settles, asked-Settles, fails-Settles, refuse-Settles, returns-Settles,
  modify-Settles, this-Settles, progress-Settles, is_idle-Settles, refuse_idle-Settles,
  queue_downloaded-Settles, fill-Settles, not_found-Settles, tick-Settles,
}

module _ (kv : KvStore) where
  open kv use {State}

  module _ (st : ChainState State) (b3 : Blake3) where
    incoming-Settles :
        (n m : ℕ) (c : Incoming) (j : Input) (next : Serving (Unit {0}))
        → Goes n c j
        → (size j < n → Settles next)
        → Settles (on_incoming kv st b3 c next)
    unfolding on_incoming
    incoming-Settles n m (message msg) j next g h = record {
      yields = (Settles-then _ _ (serve-Settles kv st b3 msg) (h g)).yields;
    }
    incoming-Settles n m timeout j next g h = record { yields = (h g).yields }
    incoming-Settles n m closed j next g h = record { yields = λ r. tt }
    incoming-Settles n m (fault e) j next g h = record { yields = λ r. g }

    respond-Settles : (n : ℕ) (i : Input) → size i < n → Settles (respond kv st b3 n i)
    unfolding respond
    respond-Settles zero i l = absurd (omega (arith, l))
    respond-Settles (suc n) i l = record {
      yields =
          (incoming-Settles (size i) n (incoming (recv i).0) (recv i).1
            (respond kv st b3 n (recv i).1) (recv-Goes i)
            (λ g. respond-Settles n (recv i).1 (omega (arith, l, g)))).yields;
    }

  module _ (b3 : Blake3) where
    module _ (fuel : ℕ) where
      take_block-Settles : (id : Hash256) (block : Block) → Settles (take_block kv fuel b3 id block)
      unfolding take_block
      take_block-Settles id block =
          Settles-then _ _ (modify-Settles kv (λ s. record s { inflight = remove id s.inflight })) (
            Settles-bind _ _ (asked-Settles kv (has_header kv id)) λ has_h.
              Settles-either (not has_h) _ _ (refuse-Settles kv (found_without_header id)) (
                Settles-either (not (bytes_eq (hash_header b3 block.header) id)) _ _
                  (refuse-Settles kv (found_other_header id (hash_header b3 block.header)))
                  (Settles-then _ _ (chain-Settles kv (ingest_block kv fuel b3 block))
                    (progress-Settles kv))))

      on_found-Settles : (id : Hash256) (block : Block) → Settles (on_found kv fuel b3 id block)
      unfolding on_found
      on_found-Settles id block = record {
        yields = λ s.
            (Settles-either (not (contains_key id s.inflight)) _ _
                (refuse-Settles kv (unexpected_found id)) (take_block-Settles id block)).yields
              s;
      }

      match_block-Settles : (msg : Message) → Settles (match_block kv fuel b3 msg)
      unfolding match_block
      match_block-Settles (block_found id block) = record {
        yields = (on_found-Settles id block).yields;
      }
      match_block-Settles (block_not_found id) = record {
        yields = λ s. (not_found-Settles kv id (lookup id s.inflight)).yields s;
      }
      match_block-Settles (hello g) = record { yields = λ s. tt }
      match_block-Settles (hello_ack g) = record { yields = λ s. tt }
      match_block-Settles (get_headers start max) = record { yields = λ s. tt }
      match_block-Settles (headers hs) = record { yields = λ s. tt }
      match_block-Settles (get_block id) = record { yields = λ s. tt }
      match_block-Settles (ping nonce) = record { yields = λ s. tt }
      match_block-Settles (pong nonce) = record { yields = λ s. tt }

      module _ (order : Assoc InflightEntry → Assoc InflightEntry) where
        blocks_incoming-Settles :
            (k : ℕ) (c : Incoming) (j : Input) (next : Syncing kv (Unit {0}))
            → Goes k c j
            → (size j < k → Settles next)
            → Settles (blocks_incoming kv fuel b3 order c next)
        unfolding blocks_incoming on_block_message
        blocks_incoming-Settles k (message msg) j next g h =
            Settles-then _ _ (Settles-then _ _ (delivered kv b3 msg) (match_block-Settles msg))
              (h g)
        blocks_incoming-Settles k timeout j next g h =
            Settles-then _ _ (tick-Settles kv order) (h g)
        blocks_incoming-Settles k closed j next g h =
            fails-Settles kv (io unexpected_eof) (λ q. cc q)
        blocks_incoming-Settles k (fault e) j next g h = fails-Settles kv e g

        download-Settles :
            (n : ℕ) (i : Input) → size i < n → Settles (download kv fuel b3 order n i)
        unfolding download
        download-Settles zero i l = absurd (omega (arith, l))
        download-Settles (suc n) i l = record {
          yields =
              (Settles-then _ _ (fill-Settles kv) (
                Settles-bind _ _ (this-Settles kv) λ s.
                  Settles-either (is_empty s.pending && is_empty s.inflight) _ _
                    (returns-Settles kv tt)
                    (Settles-bind _ _ (is_idle-Settles kv) λ idle.
                      Settles-either idle _ _ (refuse_idle-Settles kv) (
                        blocks_incoming-Settles (size i) (incoming (recv i).0) (recv i).1
                          (download kv fuel b3 order n (recv i).1) (recv-Goes i)
                          (λ g. download-Settles n (recv i).1 (omega (arith, l, g))))))).yields;
        }

        sync-Settles : (n : ℕ) (i : Input) → size i < n → Settles (sync kv fuel b3 order n i)
        unfolding sync
        sync-Settles n i l = Settles-then _ _ (session-Settles kv greet greet-Settles) (
            Settles-then _ _ (progress-Settles kv) (
              Yields-bind (λ j. size j < n) Any IsSettled _ _ (sync_headers-Leaves kv b3 n n i l l)
                λ left h. Settles-then _ _ (queue_downloaded-Settles kv) (
                  Settles-then _ _ (progress-Settles kv) (
                    Settles-then _ _ (download-Settles n left h)
                      (chain-Settles kv (validate_best_chain kv b3 fuel))))))

  not_fuel : {A : Type 0} (r : Result NodeError A) → Gives Any IsSettled r → r ≢ err out_of_fuel
  not_fuel (ok a) h q = cc q
  not_fuel (err e) h q = h (cc q)

  module _ (b3 : Blake3) (fuel : ℕ) where
    responder_ends :
        (n : ℕ) (i : Input) (o : Output) (r : Result ChainStateError (ChainState State) × State)
        → size i < n
        → Gives Any IsSettled (respond_opened kv b3 fuel n i o r).0
    unfolding respond_opened
    responder_ends n i o (ok st, s) l = (respond-Settles st b3 n i l).yields _
    responder_ends n i o (err e, s) l = λ q. cc q

    syncer_ends :
        (order : Assoc InflightEntry → Assoc InflightEntry) (batch_max n : ℕ) (i : Input)
        (o : Output) (r : Result ChainStateError (ChainState State) × State)
        → size i < n
        → Gives Any IsSettled (sync_opened kv b3 fuel order batch_max n i o r).0
    unfolding sync_opened
    syncer_ends order batch_max n i o (ok st, s) l = (sync-Settles b3 fuel order n i l).yields _
    syncer_ends order batch_max n i o (err e, s) l = λ q. cc q

    -- With more rounds than there are outcomes of `read`, bytes in them and bytes in the buffer, no
    -- loop of `run_responder_once` or `run_syncer_once` runs out of its rounds: neither function ends
    -- with `NodeError.out_of_fuel`. The steps that the chain state takes inside a round have a bound
    -- of their own, of which this says nothing.
    pub sessions_end :
        (order : Assoc InflightEntry → Assoc InflightEntry) (batch_max n : ℕ) (i : Input)
        (o : Output) (spec : ChainSpec) (s : State)
        → size i < n
        → ((run_responder_once kv b3 fuel n i o spec s).0 ≢ err out_of_fuel)
          × ((run_syncer_once kv b3 fuel order batch_max n i o spec s).0 ≢ err out_of_fuel)
    unfolding run_responder_once run_syncer_once
    sessions_end order batch_max n i o spec s l = (
      not_fuel _ (responder_ends n i o (open_or_init kv b3 fuel spec s) l),
      not_fuel _ (syncer_ends order batch_max n i o (open_or_init kv b3 fuel spec s) l),
    )
