-- ===== src/Node/Received.antt =====
-- The headers that a session receives, read off its input, and the headers phase.
use egg_project.Prelude.{
  ℕ, suc, zero, ◌-◌, ltb, ◌≡◌, refl, sym, ap, ◌∙◌, subst, Bool, true, false, List, [], ◌∷◌, ◌++◌,
  append_assoc, append-nil,
}
use egg_project.Types.{Hash256, BlockHeader}
use egg_project.Exec.{◌>>=◌, ◌>>◌}
use egg_project.Exec.Rules.{Leads, Leads-bind, Leads-then, Keeps, Ensures, Ensures-both}
use egg_project.Kv.{KvStore}
use egg_project.Crypto.Hashing.{Blake3, hash_header}
use egg_project.Net.Message.{
  Message, hello, hello_ack, get_headers, headers, get_block, block_found, block_not_found, ping,
  pong,
}
use egg_project.Chain.Defs.{Run}
use egg_project.Node.Defs.{
  NodeError, session_idle_timeout, Input, recv, Incoming, message, timeout, closed, fault, incoming,
}
use egg_project.Node.Session.{Serving, either}
use egg_project.Node.Syncer.{
  Syncer, Syncing, on_session, on_chain, fails, returns, modify, this, now_at, progress, is_idle,
}

-- The headers of a message, then those of the messages behind it, up to the first `Headers` message
-- that is empty.
abbrev pub with_headers : Message → List BlockHeader → List BlockHeader
with_headers (headers []) rest = []
with_headers (headers (h ∷ hs)) rest = h ∷ hs ++ rest
with_headers (hello g) rest = rest
with_headers (hello_ack g) rest = rest
with_headers (get_headers start max) rest = rest
with_headers (get_block id) rest = rest
with_headers (block_found id block) rest = rest
with_headers (block_not_found id) rest = rest
with_headers (ping nonce) rest = rest
with_headers (pong nonce) rest = rest

abbrev pub of_incoming : Incoming → List BlockHeader → List BlockHeader
of_incoming (message msg) rest = with_headers msg rest
of_incoming timeout rest = rest
of_incoming closed rest = []
of_incoming (fault e) rest = []

-- The headers that the peer sends before its first empty `Headers` message, in `n` calls of `recv`.
unfoldable pub received : ℕ → Input → List BlockHeader
unfolding recv incoming
received zero i = []
received (suc n) i = of_incoming (incoming (recv i).0) (received n (recv i).1)

-- The ids of headers.
abbrev pub header_ids : Blake3 → List BlockHeader → List Hash256
header_ids b3 [] = []
header_ids b3 (h ∷ hs) = hash_header b3 h ∷ header_ids b3 hs

pub header_ids-append :
    (b3 : Blake3) (hs ks : List BlockHeader)
    → header_ids b3 (hs ++ ks) ≡ header_ids b3 hs ++ header_ids b3 ks
header_ids-append b3 [] ks = refl
header_ids-append b3 (h ∷ hs) ks = ap (λ ids. hash_header b3 h ∷ ids) (header_ids-append b3 hs ks)

module _ (kv : KvStore) where
  open kv use {State}

  abbrev pub Free : Syncer State → Type 0
  Free s = Unit {0}

  -- From a session with some ids, a call that succeeds leaves these with `new` behind them.
  abbrev pub Adds : {A : Type 0} → List Hash256 → Syncing kv A → Type 0
  Adds new m =
      (ids : List Hash256)
      → Leads (λ s. s.downloaded_ids ≡ ids) (λ s. s.downloaded_ids ≡ ids ++ new) Free m

  module _ {A : Type 0} where
    Adds-none :
        (m : Syncing kv A) → Keeps (λ s x. x.downloaded_ids ≡ s.downloaded_ids) m → Adds [] m
    Adds-none m k ids = record {
      leads = λ s e.
          Ensures-both (λ _ x. x.downloaded_ids ≡ ids ++ []) Free (m s)
            (λ a. k.keeps s ∙ e ∙ sym (append-nil ids)) tt;
    }

    pub session-Adds : (m : Serving A) → Adds [] (on_session kv m)
    unfolding on_session
    session-Adds m = Adds-none (on_session kv m) (record { keeps = λ s. refl })

    pub chain-Adds : (m : Run kv A) → Adds [] (on_chain kv m)
    unfolding on_chain
    chain-Adds m = Adds-none (on_chain kv m) (record { keeps = λ s. refl })

    returns-Adds : (a : A) → Adds [] (returns kv a)
    unfolding returns
    returns-Adds a = Adds-none (returns kv a) (record { keeps = λ s. refl })

    pub fails-Adds : (new : List Hash256) (e : NodeError) → Adds new (fails kv {A = A} e)
    unfolding fails
    fails-Adds new e ids = record { leads = λ s h. tt }

    pub either-Adds :
        (new : List Hash256) (b : Bool) (m n : Syncing kv A)
        → Adds new m
        → Adds new n
        → Adds new (either b m n)
    unfolding either
    either-Adds new true m n hm hn = hm
    either-Adds new false m n hm hn = hn

  pub shifted :
      {B : Type 0} (new more : List Hash256) (m : Syncing kv B) (ids : List Hash256)
      → Adds more m
      → Leads
          (λ s. s.downloaded_ids ≡ ids ++ new)
          (λ s. s.downloaded_ids ≡ ids ++ (new ++ more))
          Free
          m
  shifted new more m ids h = record {
    leads = λ s e.
        subst (λ l. Ensures (λ _ x. x.downloaded_ids ≡ l) Free (m s)) (append_assoc ids new more)
          ((h (ids ++ new)).leads s e);
  }

  module _ {A B : Type 0} (new more : List Hash256) where
    pub Adds-bind :
        (m : Syncing kv A) (f : A → Syncing kv B)
        → Adds new m
        → ((a : A) → Adds more (f a))
        → Adds (new ++ more) (m >>= f)
    Adds-bind m f hm hf ids =
        Leads-bind _ _ _ Free m f (hm ids) (λ a. shifted new more (f a) ids (hf a))

    pub Adds-then :
        (m : Syncing kv A) (n : Syncing kv B)
        → Adds new m
        → Adds more n
        → Adds (new ++ more) (m >> n)
    Adds-then m n hm hn ids = Leads-then _ _ _ Free m n (hm ids) (shifted new more n ids hn)

  pub progress-Adds : Adds [] (progress kv)
  unfolding progress now_at modify
  progress-Adds =
      Adds-bind [] [] (now_at kv) (λ now. modify kv (λ s. record s { last_progress = now }))
        (unfold now_at in session-Adds _) (λ now. Adds-none _ (record { keeps = λ s. refl }))

  pub is_idle-Adds : Adds [] (is_idle kv)
  unfolding is_idle
  is_idle-Adds = Adds-bind [] [] (now_at kv) _ (unfold now_at in session-Adds _) λ now.
      Adds-bind [] [] (this kv) _
        (Adds-none (this kv) (unfold this in record { keeps = λ s. refl }))
        λ s. returns-Adds (ltb session_idle_timeout (now - s.last_progress))
