-- ===== src/Node/HeadersQuiet.antt =====
-- The headers phase and the account of the requests.
use egg_project.Prelude.{ℕ, suc, zero, refl, true, false, Option, none, some, List, [], ◌∷◌, ◌++◌}
use egg_project.Types.{BlockHeader}
use egg_project.Kv.{KvStore}
use egg_project.Crypto.Hashing.{Blake3, hash_header}
use egg_project.Net.Message.{Message}
use egg_project.Chain.Ingest.{ingest_header}
use egg_project.Node.Defs.{
  io, protocol, unexpected_eof, header_sync_idle, Input, recv, Incoming, message, timeout, closed,
  fault, incoming,
}
use egg_project.Node.Syncer.{
  Syncing, batch_of, ingest_headers, on_batch, headers_incoming, sync_headers,
}
use egg_project.Node.Quiet.{
  Quiet, deliver-Polite, on_session-Quiet, on_chain-Quiet, fails-Quiet, returns-Quiet, either-Quiet,
  bind-Quiet, then-Quiet, modify-Quiet, progress-Quiet, is_idle-Quiet,
}

module _ (kv : KvStore) (b3 : Blake3) where
  ingest_headers-Quiet : (hs : List BlockHeader) → Quiet kv (ingest_headers kv b3 hs)
  unfolding ingest_headers
  ingest_headers-Quiet [] = record { keeps = λ s. ((λ id. refl), refl, refl) }
  ingest_headers-Quiet (h ∷ hs) = record {
    keeps =
        (then-Quiet kv _ _
          (modify-Quiet kv
            (λ s. record s { downloaded_ids = s.downloaded_ids ++ hash_header b3 h ∷ [] })
            (λ s. ((λ id. refl), refl, refl)))
          (then-Quiet kv _ _ (on_chain-Quiet kv (ingest_header kv b3 h))
            (ingest_headers-Quiet hs))).keeps;
  }

  on_batch-Quiet : (msg : Message) (o : Option (List BlockHeader)) → Quiet kv (on_batch kv b3 msg o)
  unfolding on_batch
  on_batch-Quiet msg (some []) =
      then-Quiet kv _ _ (on_session-Quiet kv _ (deliver-Polite b3 msg)) (returns-Quiet kv true)
  on_batch-Quiet msg (some (h ∷ hs)) = then-Quiet kv _ _ (progress-Quiet kv) (
      then-Quiet kv _ _ (ingest_headers-Quiet (h ∷ hs)) (
        then-Quiet kv _ _ (on_session-Quiet kv _ (deliver-Polite b3 msg)) (returns-Quiet kv false)))
  on_batch-Quiet msg none =
      then-Quiet kv _ _ (on_session-Quiet kv _ (deliver-Polite b3 msg)) (returns-Quiet kv false)

  headers_incoming-Quiet :
      (c : Incoming) (i : Input) (next : Syncing kv Input)
      → Quiet kv next
      → Quiet kv (headers_incoming kv b3 c i next)
  unfolding headers_incoming
  headers_incoming-Quiet (message msg) i next h =
      bind-Quiet kv _ _ (on_batch-Quiet msg (batch_of msg))
        λ done. either-Quiet kv done _ _ (returns-Quiet kv i) h
  headers_incoming-Quiet timeout i next h = h
  headers_incoming-Quiet closed i next h = fails-Quiet kv (io unexpected_eof)
  headers_incoming-Quiet (fault e) i next h = fails-Quiet kv e

  pub sync_headers-Quiet : (n : ℕ) (i : Input) → Quiet kv (sync_headers kv b3 n i)
  unfolding sync_headers
  sync_headers-Quiet zero i = record { keeps = λ s. ((λ id. refl), refl, refl) }
  sync_headers-Quiet (suc n) i = record {
    keeps =
        (bind-Quiet kv _ _ (is_idle-Quiet kv) λ idle.
          either-Quiet kv idle _ _ (fails-Quiet kv (protocol header_sync_idle)) (
            headers_incoming-Quiet (incoming (recv i).0) (recv i).1
              (sync_headers kv b3 n (recv i).1) (sync_headers-Quiet n (recv i).1))).keeps;
  }
