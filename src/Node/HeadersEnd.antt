-- ===== src/Node/HeadersEnd.antt =====
-- The rounds of the headers phase, and the input that it leaves.
use egg_project.Prelude.{
  ℕ, zero, suc, ◌<◌, Bool, true, false, Option, none, some, List, [], ◌∷◌, ◌++◌, arith,
}
use egg_project.Types.{BlockHeader}
use egg_project.Exec.Yields.{Yields, Any, Yields-bind}
use egg_project.Kv.{KvStore}
use egg_project.Crypto.Hashing.{Blake3, hash_header}
use egg_project.Net.Message.{Message}
use egg_project.Chain.Ingest.{ingest_header}
use egg_project.Node.Defs.{
  NodeError, io, protocol, header_sync_idle, unexpected_eof, Input, recv, Incoming, message,
  timeout, closed, fault, incoming,
}
use egg_project.Node.Session.{either, deliver}
use egg_project.Node.Syncer.{
  Syncing, on_session, fails, returns, batch_of, ingest_headers, on_batch, headers_incoming,
  sync_headers,
}
use egg_project.Node.Sizes.{size, Goes, recv-Goes}
use egg_project.Node.Settles.{IsSettled, Settles, Settles-then, deliver-Settles}
use egg_project.Node.SyncSettles.{
  session-Settles, chain-Settles, returns-Settles, modify-Settles, progress-Settles,
  is_idle-Settles,
}

module _ (kv : KvStore) (b3 : Blake3) where
  open kv use {State}

  ingest_headers-Settles : (hs : List BlockHeader) → Settles (ingest_headers kv b3 hs)
  unfolding ingest_headers
  ingest_headers-Settles [] = record { yields = λ s. tt }
  ingest_headers-Settles (h ∷ hs) = record {
    yields =
        (Settles-then _ _
          (modify-Settles kv
            (λ s. record s { downloaded_ids = s.downloaded_ids ++ hash_header b3 h ∷ [] }))
          (Settles-then _ _ (chain-Settles kv (ingest_header kv b3 h))
            (ingest_headers-Settles hs))).yields;
  }

  pub delivered : (msg : Message) → Settles (on_session kv (deliver b3 msg))
  delivered msg = session-Settles kv _ (deliver-Settles b3 msg)

  on_batch-Settles :
      (msg : Message) (o : Option (List BlockHeader)) → Settles (on_batch kv b3 msg o)
  unfolding on_batch
  on_batch-Settles msg (some []) = Settles-then _ _ (delivered msg) (returns-Settles kv true)
  on_batch-Settles msg (some (h ∷ hs)) = Settles-then _ _ (progress-Settles kv) (
      Settles-then _ _ (ingest_headers-Settles (h ∷ hs))
        (Settles-then _ _ (delivered msg) (returns-Settles kv false)))
  on_batch-Settles msg none = Settles-then _ _ (delivered msg) (returns-Settles kv false)

  -- The input that is left is below the bound.
  abbrev pub Leaves : ℕ → Syncing kv Input → Type 0
  Leaves n m = Yields (λ j. size j < n) IsSettled m

  fails-Leaves : (n : ℕ) (e : NodeError) → IsSettled e → Leaves n (fails kv e)
  unfolding fails
  fails-Leaves n e h = record { yields = λ s. h }

  either-Leaves :
      (n : ℕ) (b : Bool) (m k : Syncing kv Input)
      → Leaves n m
      → Leaves n k
      → Leaves n (either b m k)
  unfolding either
  either-Leaves n true m k hm hk = hm
  either-Leaves n false m k hm hk = hk

  returns-Leaves : (n : ℕ) (j : Input) → size j < n → Leaves n (returns kv j)
  unfolding returns
  returns-Leaves n j l = record { yields = λ s. l }

  headers_incoming-Leaves :
      (n k : ℕ) (c : Incoming) (j : Input) (next : Syncing kv Input)
      → Goes k c j
      → k < n
      → (size j < k → Leaves n next)
      → Leaves n (headers_incoming kv b3 c j next)
  unfolding headers_incoming
  headers_incoming-Leaves n k (message msg) j next g l h =
      Yields-bind Any (λ i. size i < n) IsSettled _ _ (on_batch-Settles msg (batch_of msg))
        λ done _. either-Leaves n done _ _ (returns-Leaves n j (omega (arith, g, l))) (h g)
  headers_incoming-Leaves n k timeout j next g l h = h g
  headers_incoming-Leaves n k closed j next g l h = fails-Leaves n (io unexpected_eof) (λ q. cc q)
  headers_incoming-Leaves n k (fault e) j next g l h = fails-Leaves n e g

  pub sync_headers-Leaves :
      (top n : ℕ) (i : Input) → size i < n → size i < top → Leaves top (sync_headers kv b3 n i)
  unfolding sync_headers
  sync_headers-Leaves top zero i l t = absurd (omega (arith, l))
  sync_headers-Leaves top (suc n) i l t = record {
    yields =
        (Yields-bind Any (λ j. size j < top) IsSettled _ _ (is_idle-Settles kv)
          λ idle _.
            either-Leaves top idle _ _ (fails-Leaves top (protocol header_sync_idle) (λ q. cc q)) (
              headers_incoming-Leaves top (size i) (incoming (recv i).0) (recv i).1
                (sync_headers kv b3 n (recv i).1) (recv-Goes i) t
                (λ g.
                  sync_headers-Leaves top n (recv i).1 (omega (arith, l, g))
                    (omega (arith, t, g))))).yields;
  }
