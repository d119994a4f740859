-- ===== src/Node/Headers.antt =====
-- The headers phase and the records of the store.
use egg_project.Prelude.{
  ℕ, suc, zero, ◌-◌, ltb, refl, ◌∙◌, Bool, true, false, Option, none, some, List, [], ◌∷◌, ◌++◌,
}
use egg_project.Types.{Hash256, BlockHeader}
use egg_project.Exec.{◌>>=◌, ◌>>◌}
use egg_project.Exec.Rules.{Keeps, keeps_bind, keeps_then}
use egg_project.Kv.{KvStore, KvLaws}
use egg_project.Crypto.Hashing.{Blake3, hash_header}
use egg_project.Net.Message.{Message}
use egg_project.Chain.Defs.{ChainState, Run}
use egg_project.Chain.Ingest.{ingest_header}
use egg_project.Chain.Lasting.{Lasting, ingest_header-Lasting}
use egg_project.Node.Defs.{
  NodeError, io, protocol, unexpected_eof, header_sync_idle, session_idle_timeout, Input, recv,
  Incoming, message, timeout, closed, fault, incoming,
}
use egg_project.Node.Session.{Serving, either, deliver}
use egg_project.Node.Syncer.{
  Syncer, Syncing, on_session, on_chain, fails, returns, modify, this, now_at, progress, is_idle,
  batch_of, ingest_headers, on_batch, headers_incoming, sync_headers,
}

module _ (kv : KvStore) where
  open kv use {State}

  abbrev pub StoreLasts : Syncer State → Syncer State → Type 0
  StoreLasts s x = Lasting kv s.chain_state x.chain_state

  pub StoreLasts-refl : (s : Syncer State) → StoreLasts s s
  StoreLasts-refl s = ((λ k h. h), refl, refl)

  StoreLasts-trans : (a b c : Syncer State) → StoreLasts a b → StoreLasts b c → StoreLasts a c
  StoreLasts-trans a b c p q = ((λ k h. q.0 k (p.0 k h)), q.1 ∙ p.1, q.2 ∙ p.2)

  abbrev pub Safe : {A : Type 0} → Syncing kv A → Type 0
  Safe m = Keeps StoreLasts m

  module _ {A B : Type 0} where
    pub bind-Safe :
        (m : Syncing kv A) (f : A → Syncing kv B) → Safe m → ((a : A) → Safe (f a)) → Safe (m >>= f)
    bind-Safe = keeps_bind StoreLasts StoreLasts-trans

    pub then-Safe : (m : Syncing kv A) (n : Syncing kv B) → Safe m → Safe n → Safe (m >> n)
    then-Safe = keeps_then StoreLasts StoreLasts-trans

  module _ {A : Type 0} where
    pub session-Safe : (m : Serving A) → Safe (on_session kv m)
    unfolding on_session
    session-Safe m = record { keeps = StoreLasts-refl }

    returns-Safe : (a : A) → Safe (returns kv a)
    unfolding returns
    returns-Safe a = record { keeps = StoreLasts-refl }

    fails-Safe : (e : NodeError) → Safe (fails kv {A = A} e)
    unfolding fails
    fails-Safe e = record { keeps = StoreLasts-refl }

    either-Safe : (b : Bool) (m n : Syncing kv A) → Safe m → Safe n → Safe (either b m n)
    unfolding either
    either-Safe true m n hm hn = hm
    either-Safe false m n hm hn = hn

    pub chain-Safe :
        (m : Run kv A) → ((st : ChainState State) → Lasting kv st (m st).1) → Safe (on_chain kv m)
    unfolding on_chain
    chain-Safe m h = record { keeps = λ s. h s.chain_state }

  now-Safe : Safe (now_at kv)
  unfolding now_at
  now-Safe = session-Safe _

  set-Safe : (now : ℕ) → Safe (modify kv (λ s. record s { last_progress = now }))
  unfolding modify
  set-Safe now = record { keeps = StoreLasts-refl }

  pub progress-Safe : Safe (progress kv)
  unfolding progress
  progress-Safe = bind-Safe _ _ now-Safe set-Safe

  this-Safe : Safe (this kv)
  unfolding this
  this-Safe = record { keeps = StoreLasts-refl }

  idle-Safe : Safe (is_idle kv)
  unfolding is_idle
  idle-Safe = bind-Safe _ _ now-Safe λ now.
      bind-Safe _ _ this-Safe λ s. returns-Safe (ltb session_idle_timeout (now - s.last_progress))

  module _ (laws : KvLaws kv) (b3 : Blake3) where
    download-Safe :
        (id : Hash256)
        → Safe (modify kv (λ s. record s { downloaded_ids = s.downloaded_ids ++ id ∷ [] }))
    unfolding modify
    download-Safe id = record { keeps = StoreLasts-refl }

    ingest_headers-Safe : (hs : List BlockHeader) → Safe (ingest_headers kv b3 hs)
    unfolding ingest_headers
    ingest_headers-Safe [] = record { keeps = StoreLasts-refl }
    ingest_headers-Safe (h ∷ hs) = record {
      keeps =
          (then-Safe _ _ (download-Safe (hash_header b3 h)) (
            then-Safe _ _ (chain-Safe (ingest_header kv b3 h) (ingest_header-Lasting kv laws b3 h))
              (ingest_headers-Safe hs))).keeps;
    }

    on_batch-Safe : (msg : Message) (o : Option (List BlockHeader)) → Safe (on_batch kv b3 msg o)
    unfolding on_batch
    on_batch-Safe msg (some []) = then-Safe _ _ (session-Safe (deliver b3 msg)) (returns-Safe true)
    on_batch-Safe msg (some (h ∷ hs)) = then-Safe _ _ progress-Safe (
        then-Safe _ _ (ingest_headers-Safe (h ∷ hs))
          (then-Safe _ _ (session-Safe (deliver b3 msg)) (returns-Safe false)))
    on_batch-Safe msg none = then-Safe _ _ (session-Safe (deliver b3 msg)) (returns-Safe false)

    incoming-Safe :
        (c : Incoming) (i : Input) (next : Syncing kv Input)
        → Safe next
        → Safe (headers_incoming kv b3 c i next)
    unfolding headers_incoming
    incoming-Safe (message msg) i next h =
        bind-Safe _ _ (on_batch-Safe msg (batch_of msg))
          λ done. either-Safe done _ _ (returns-Safe i) h
    incoming-Safe timeout i next h = h
    incoming-Safe closed i next h = fails-Safe (io unexpected_eof)
    incoming-Safe (fault e) i next h = fails-Safe e

    pub sync_headers-Safe : (n : ℕ) (i : Input) → Safe (sync_headers kv b3 n i)
    unfolding sync_headers
    sync_headers-Safe zero i = record { keeps = StoreLasts-refl }
    sync_headers-Safe (suc n) i = record {
      keeps =
          (bind-Safe _ _ idle-Safe λ idle.
            either-Safe idle _ _ (fails-Safe (protocol header_sync_idle)) (
              incoming-Safe (incoming (recv i).0) (recv i).1 (sync_headers kv b3 n (recv i).1)
                (sync_headers-Safe n (recv i).1))).keeps;
    }
