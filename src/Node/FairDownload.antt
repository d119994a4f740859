-- ===== src/Node/FairDownload.antt =====
-- The loop of the blocks phase and the account of the requests.
use egg_project.Prelude.{ℕ, suc, zero, refl, not, ◌&&◌, bytes_eq}
use egg_project.Prelude.Assoc.{Assoc, contains_key, remove}
use egg_project.Types.{Hash256, Block}
use egg_project.Exec.{◌>>=◌}
use egg_project.Kv.{KvStore}
use egg_project.Crypto.Hashing.{Blake3, hash_header}
use egg_project.Net.Message.{
  Message, hello, hello_ack, get_headers, headers, get_block, block_found, block_not_found, ping,
  pong,
}
use egg_project.Store.Ops.{has_header}
use egg_project.Chain.Ingest.{ingest_block}
use egg_project.Node.Defs.{
  io, unexpected_eof, unexpected_found, found_without_header, found_other_header, Input, recv,
  Incoming, message, timeout, closed, fault, incoming,
}
use egg_project.Node.Session.{either}
use egg_project.Node.Syncer.{InflightEntry, Syncer, Syncing, returns, is_idle}
use egg_project.Node.Download.{
  is_empty, take_block, on_found, match_block, on_block_message, blocks_incoming, fill, refuse_idle,
  download,
}
use egg_project.Node.Attempts.{Attempts-drop}
use egg_project.Node.Quiet.{
  deliver-Polite, on_session-Quiet, on_chain-Quiet, asked-Quiet, fails-Quiet, this-Quiet,
  now_at-Quiet, progress-Quiet, is_idle-Quiet, refuse_idle-Quiet,
}
use egg_project.Node.Fair.{Fair, Quiet-Fair, either-Fair, bind-Fair, then-Fair, modify-Fair}
use egg_project.Node.FairSteps.{
  done-Fair, refuse-Fair, on_not_found_fair, fill_window_fair, tick-Fair,
}

module _ (kv : KvStore) where
  open kv use {State}

  module _ (fuel : ℕ) (b3 : Blake3) where
    take_block-Fair : (id : Hash256) (block : Block) → Fair kv (take_block kv fuel b3 id block)
    unfolding take_block
    take_block-Fair id block =
        then-Fair kv _ _
          (modify-Fair kv (λ s. record s { inflight = remove id s.inflight })
            (λ s f. Attempts-drop s.session.output.sent s.pending s.inflight id f))
          (bind-Fair kv _ _ (Quiet-Fair kv _ (asked-Quiet kv (has_header kv id))) λ has_h.
            either-Fair kv (not has_h) _ _ (refuse-Fair kv (found_without_header id)) (
              either-Fair kv (not (bytes_eq (hash_header b3 block.header) id)) _ _
                (refuse-Fair kv (found_other_header id (hash_header b3 block.header)))
                (then-Fair kv _ _
                  (Quiet-Fair kv _ (on_chain-Quiet kv (ingest_block kv fuel b3 block)))
                  (Quiet-Fair kv _ (progress-Quiet kv)))))

    on_found-Fair : (id : Hash256) (block : Block) → Fair kv (on_found kv fuel b3 id block)
    unfolding on_found
    on_found-Fair id block = record {
      leads = λ s.
          (either-Fair kv (not (contains_key id s.inflight)) _ _
              (refuse-Fair kv (unexpected_found id)) (take_block-Fair id block)).leads
            s;
    }

    match_block-Fair : (msg : Message) → Fair kv (match_block kv fuel b3 msg)
    unfolding match_block
    match_block-Fair (block_found id block) = record { leads = (on_found-Fair id block).leads }
    match_block-Fair (block_not_found id) = record { leads = on_not_found_fair kv id }
    match_block-Fair (hello g) = record { leads = λ s f. f }
    match_block-Fair (hello_ack g) = record { leads = λ s f. f }
    match_block-Fair (get_headers start max) = record { leads = λ s f. f }
    match_block-Fair (headers hs) = record { leads = λ s f. f }
    match_block-Fair (get_block id) = record { leads = λ s f. f }
    match_block-Fair (ping nonce) = record { leads = λ s f. f }
    match_block-Fair (pong nonce) = record { leads = λ s f. f }

    on_block_message-Fair : (msg : Message) → Fair kv (on_block_message kv fuel b3 msg)
    unfolding on_block_message
    on_block_message-Fair msg =
        then-Fair kv _ _ (Quiet-Fair kv _ (on_session-Quiet kv _ (deliver-Polite b3 msg)))
          (match_block-Fair msg)

    fill-Fair : Fair kv (fill kv)
    unfolding fill
    fill-Fair =
        bind-Fair kv _ _ (Quiet-Fair kv _ (now_at-Quiet kv))
          λ now. record { leads = λ s f. fill_window_fair kv now s.pending s refl f }

    module _ (order : Assoc InflightEntry → Assoc InflightEntry) where
      incoming-Fair :
          (c : Incoming) (next : Syncing kv (Unit {0}))
          → Fair kv next
          → Fair kv (blocks_incoming kv fuel b3 order c next)
      unfolding blocks_incoming
      incoming-Fair (message msg) next h = then-Fair kv _ _ (on_block_message-Fair msg) h
      incoming-Fair timeout next h = then-Fair kv _ _ (tick-Fair kv order) h
      incoming-Fair closed next h = Quiet-Fair kv _ (fails-Quiet kv (io unexpected_eof))
      incoming-Fair (fault e) next h = Quiet-Fair kv _ (fails-Quiet kv e)

      -- What follows once the window is filled.
      round-Fair :
          (c : Incoming) (next : Syncing kv (Unit {0})) (s : Syncer State)
          → Fair kv next
          → Fair kv (
              either (is_empty s.pending && is_empty s.inflight) (returns kv tt) (
                is_idle kv >>= λ idle.
                either idle (refuse_idle kv) (blocks_incoming kv fuel b3 order c next)))
      round-Fair c next s h = either-Fair kv _ _ _ (done-Fair kv) (
          bind-Fair kv _ _ (Quiet-Fair kv _ (is_idle-Quiet kv)) λ idle.
            either-Fair kv idle _ _ (Quiet-Fair kv _ (refuse_idle-Quiet kv))
              (incoming-Fair c next h))

      pub download-Fair : (n : ℕ) (i : Input) → Fair kv (download kv fuel b3 order n i)
      unfolding download
      download-Fair zero i = record { leads = λ s f. f.bounded }
      download-Fair (suc n) i = record {
        leads =
            (then-Fair kv _ _ fill-Fair (
              bind-Fair kv _ _ (Quiet-Fair kv _ (this-Quiet kv)) λ s.
                round-Fair (incoming (recv i).0) (download kv fuel b3 order n (recv i).1) s
                  (download-Fair n (recv i).1))).leads;
      }
