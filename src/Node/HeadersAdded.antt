-- ===== src/Node/HeadersAdded.antt =====
-- The headers phase and the ids that it adds.
use egg_project.Prelude.{
  ℕ, suc, zero, ◌≡◌, refl, sym, ap, ◌∙◌, subst, Bool, true, false, none, some, List, [], ◌∷◌, ◌++◌,
  append_assoc, append-nil,
}
use egg_project.Types.{Hash256, BlockHeader}
use egg_project.Exec.{◌>>=◌, ◌>>◌}
use egg_project.Exec.Rules.{Ensures, Ensures-bind, Ensures-then}
use egg_project.Kv.{KvStore}
use egg_project.Crypto.Hashing.{Blake3, hash_header}
use egg_project.Net.Message.{
  Message, hello, hello_ack, get_headers, headers, get_block, block_found, block_not_found, ping,
  pong,
}
use egg_project.Chain.Ingest.{ingest_header}
use egg_project.Node.Defs.{
  io, protocol, unexpected_eof, header_sync_idle, Input, recv, Incoming, message, timeout, closed,
  fault, incoming,
}
use egg_project.Node.Session.{either, deliver}
use egg_project.Node.FairSteps.{either_split}
use egg_project.Node.Syncer.{
  Syncer, Syncing, on_session, returns, modify, batch_of, ingest_headers, on_batch,
  headers_incoming, sync_headers,
}
use egg_project.Node.Received.{
  received, header_ids, with_headers, of_incoming, header_ids-append, Free, Adds, session-Adds,
  chain-Adds, fails-Adds, either-Adds, shifted, Adds-bind, Adds-then, progress-Adds, is_idle-Adds,
}

module _ (kv : KvStore) where
  open kv use {State}

  module _ (b3 : Blake3) where
    push-Adds :
        (id : Hash256)
        → Adds kv
            (id ∷ [])
            (modify kv (λ s. record s { downloaded_ids = s.downloaded_ids ++ id ∷ [] }))
    unfolding modify
    push-Adds id ids = record { leads = λ s e. ap (λ l. l ++ id ∷ []) e }

    ingest_headers-Adds :
        (hs : List BlockHeader) → Adds kv (header_ids b3 hs) (ingest_headers kv b3 hs)
    unfolding ingest_headers
    ingest_headers-Adds [] ids = record { leads = λ s e. e ∙ sym (append-nil ids) }
    ingest_headers-Adds (h ∷ hs) ids = record {
      leads =
          (Adds-then kv (hash_header b3 h ∷ []) (header_ids b3 hs) _ _
            (push-Adds (hash_header b3 h))
            (Adds-then kv [] (header_ids b3 hs) _ _ (chain-Adds kv (ingest_header kv b3 h))
              (ingest_headers-Adds hs))
            ids).leads;
    }

  -- A call that adds `new`, and that answers `done` where it succeeds.
  record Tells (done : Bool) (new : List Hash256) (m : Syncing kv Bool) : Type 0 where
    tells :
        (ids : List Hash256) (s : Syncer State)
        → s.downloaded_ids ≡ ids
        → Ensures (λ b x. (b ≡ done) × (x.downloaded_ids ≡ ids ++ new)) (Free kv) (m s)

  returns-Tells : (done : Bool) → Tells done [] (returns kv done)
  unfolding returns
  returns-Tells done = record { tells = λ ids s e. (refl, e ∙ sym (append-nil ids)) }

  then-Tells :
      {A : Type 0} (done : Bool) (new more : List Hash256) (m : Syncing kv A) (n : Syncing kv Bool)
      → Adds kv new m
      → Tells done more n
      → Tells done (new ++ more) (m >> n)
  then-Tells done new more m n hm hn = record {
    tells = λ ids s e.
        Ensures-then (λ _ x. x.downloaded_ids ≡ ids ++ new) (Free kv)
          (λ b x. (b ≡ done) × (x.downloaded_ids ≡ ids ++ (new ++ more))) m n s ((hm ids).leads s e)
          (λ a x q.
            subst (λ l. Ensures (λ b y. (b ≡ done) × (y.downloaded_ids ≡ l)) (Free kv) (n x))
              (append_assoc ids new more) (hn.tells (ids ++ new) x q));
  }

  module _ (i : Input) (next : Syncing kv Input) (m : Syncing kv Bool) (new : List Hash256) where
    abbrev decided : Syncing kv Input
    decided = m >>= λ done. either done (returns kv i) next

    -- The phase ends.
    last-Adds : Tells true new m → Adds kv new decided
    last-Adds t ids = record {
      leads = λ s e.
          Ensures-bind (λ b x. (b ≡ true) × (x.downloaded_ids ≡ ids ++ new)) (Free kv)
            (λ _ x. x.downloaded_ids ≡ ids ++ new) m _ s (t.tells ids s e)
            (λ b x q.
              either_split (Ensures (λ _ y. y.downloaded_ids ≡ ids ++ new) (Free kv)) b
                (returns kv i) next x (λ _. unfold returns in q.1) (λ f. absurd (cc (f, q.0))));
    }

    -- The phase goes on.
    next-Adds :
        (more : List Hash256)
        → Tells false new m
        → Adds kv more next
        → Adds kv (new ++ more) decided
    next-Adds more t h ids = record {
      leads = λ s e.
          Ensures-bind (λ b x. (b ≡ false) × (x.downloaded_ids ≡ ids ++ new)) (Free kv)
            (λ _ x. x.downloaded_ids ≡ ids ++ (new ++ more)) m _ s (t.tells ids s e)
            (λ b x q.
              either_split (Ensures (λ _ y. y.downloaded_ids ≡ ids ++ (new ++ more)) (Free kv)) b
                (returns kv i) next x (λ f. absurd (cc (f, q.0)))
                (λ _. (shifted kv new more next ids h).leads x q.1));
    }

  module _ (b3 : Blake3) where
    delivered-Adds : (msg : Message) → Adds kv [] (on_session kv (deliver b3 msg))
    delivered-Adds msg = session-Adds kv (deliver b3 msg)

    other-Tells : (msg : Message) → Tells false [] (on_batch kv b3 msg none)
    unfolding on_batch
    other-Tells msg = then-Tells false [] [] _ _ (delivered-Adds msg) (returns-Tells false)

    empty-Tells : (msg : Message) → Tells true [] (on_batch kv b3 msg (some []))
    unfolding on_batch
    empty-Tells msg = then-Tells true [] [] _ _ (delivered-Adds msg) (returns-Tells true)

    some-Tells :
        (msg : Message) (h : BlockHeader) (hs : List BlockHeader)
        → Tells false (header_ids b3 (h ∷ hs) ++ []) (on_batch kv b3 msg (some (h ∷ hs)))
    unfolding on_batch
    some-Tells msg h hs =
        then-Tells false [] (header_ids b3 (h ∷ hs) ++ []) _ _ (progress-Adds kv) (
          then-Tells false (header_ids b3 (h ∷ hs)) [] _ _ (ingest_headers-Adds b3 (h ∷ hs))
            (then-Tells false [] [] _ _ (delivered-Adds msg) (returns-Tells false)))

    message-Adds :
        (msg : Message) (i : Input) (next : Syncing kv Input) (rest : List BlockHeader)
        → Adds kv (header_ids b3 rest) next
        → Adds kv
            (header_ids b3 (with_headers msg rest))
            (headers_incoming kv b3 (message msg) i next)
    unfolding headers_incoming batch_of
    message-Adds (headers []) i next rest a =
        last-Adds i next (on_batch kv b3 (headers []) (some [])) [] (empty-Tells (headers []))
    message-Adds (headers (h ∷ hs)) i next rest a =
        subst
          (λ l. Adds kv l (decided i next (on_batch kv b3 (headers (h ∷ hs)) (some (h ∷ hs))) []))
          (ap (λ l. l ++ header_ids b3 rest) (append-nil (header_ids b3 (h ∷ hs)))
            ∙ sym (header_ids-append b3 (h ∷ hs) rest))
          (next-Adds i next _ _ (header_ids b3 rest) (some-Tells (headers (h ∷ hs)) h hs) a)
    message-Adds (hello g) i next rest a = next-Adds i next _ [] _ (other-Tells (hello g)) a
    message-Adds (hello_ack g) i next rest a = next-Adds i next _ [] _ (other-Tells (hello_ack g)) a
    message-Adds (get_headers start max) i next rest a =
        next-Adds i next _ [] _ (other-Tells (get_headers start max)) a
    message-Adds (get_block id) i next rest a =
        next-Adds i next _ [] _ (other-Tells (get_block id)) a
    message-Adds (block_found id block) i next rest a =
        next-Adds i next _ [] _ (other-Tells (block_found id block)) a
    message-Adds (block_not_found id) i next rest a =
        next-Adds i next _ [] _ (other-Tells (block_not_found id)) a
    message-Adds (ping nonce) i next rest a = next-Adds i next _ [] _ (other-Tells (ping nonce)) a
    message-Adds (pong nonce) i next rest a = next-Adds i next _ [] _ (other-Tells (pong nonce)) a

    incoming-Adds :
        (c : Incoming) (i : Input) (next : Syncing kv Input) (rest : List BlockHeader)
        → Adds kv (header_ids b3 rest) next
        → Adds kv (header_ids b3 (of_incoming c rest)) (headers_incoming kv b3 c i next)
    incoming-Adds (message msg) i next rest a = message-Adds msg i next rest a
    incoming-Adds timeout i next rest a = unfold headers_incoming in a
    incoming-Adds closed i next rest a =
        unfold headers_incoming in fails-Adds kv [] (io unexpected_eof)
    incoming-Adds (fault e) i next rest a = unfold headers_incoming in fails-Adds kv [] e

    pub sync_headers-Adds :
        (n : ℕ) (i : Input) → Adds kv (header_ids b3 (received n i)) (sync_headers kv b3 n i)
    unfolding sync_headers received
    sync_headers-Adds zero i ids = record { leads = λ s e. tt }
    sync_headers-Adds (suc n) i ids = record {
      leads =
          (Adds-bind kv [] _ _ _ (is_idle-Adds kv)
            (λ idle. either-Adds kv _ idle _ _ (fails-Adds kv _ (protocol header_sync_idle)) (
              incoming-Adds (incoming (recv i).0) (recv i).1 (sync_headers kv b3 n (recv i).1)
                (received n (recv i).1) (sync_headers-Adds n (recv i).1)))
            ids).leads;
    }
