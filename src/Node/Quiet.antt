-- ===== src/Node/Quiet.antt =====
-- The calls of a session that ask for no block and leave the queue and the blocks in flight alone.
use egg_project.Prelude.{ℕ, ◌-◌, ltb, ◌≡◌, refl, ◌∙◌, Bool, true, false, Result}
use egg_project.Exec.{◌>>=◌, ◌>>◌}
use egg_project.Exec.Rules.{Keeps, keeps_bind, keeps_then}
use egg_project.Kv.{KvStore}
use egg_project.Crypto.Hashing.{Blake3}
use egg_project.Net.Message.{Message}
use egg_project.Net.Peer.Handlers.{on_message_at, start}
use egg_project.Store.Records.{StoreError}
use egg_project.Chain.Defs.{Run}
use egg_project.Node.Defs.{NodeError, Writing, Output, instant_now, Breach, session_idle_timeout}
use egg_project.Node.Session.{
  Session, Serving, writing, either, deliver_at, check_ban, deliver, greet, note_timeout_at,
  count_timeout,
}
use egg_project.Node.Syncer.{
  Syncer, Syncing, on_session, on_chain, asked, fails, returns, modify, this, now_at, progress,
  is_idle,
}
use egg_project.Node.Download.{refuse, refuse_idle}
use egg_project.Node.Requests.{
  SameRequests, SameRequests-trans, send_all-other, on_message-IsOther, start-IsOther,
}

-- Sessions that have sent the same requests.
abbrev pub SameSession : Session → Session → Type 0
SameSession r x = SameRequests r.output x.output

SameSession-trans : (a b c : Session) → SameSession a b → SameSession b c → SameSession a c
SameSession-trans a b c = SameRequests-trans a.output b.output c.output

abbrev pub Polite : {A : Type 0} → Serving A → Type 0
Polite m = Keeps SameSession m

writing-Polite :
    {A : Type 0} (m : Writing A) → ((o : Output) → SameRequests o (m o).1) → Polite (writing m)
unfolding writing
writing-Polite m h = record { keeps = λ r. h r.output }

instant_now-Polite : Polite (writing instant_now)
instant_now-Polite = writing-Polite instant_now (unfold instant_now in λ o id. refl)

check_ban-Polite : Polite check_ban
check_ban-Polite = record { keeps = λ r. unfold check_ban in λ id. refl }

deliver_at-Polite : (b3 : Blake3) (msg : Message) (now : ℕ) → Polite (deliver_at b3 msg now)
unfolding deliver_at writing
deliver_at-Polite b3 msg now = record {
  keeps = λ r.
      send_all-other (on_message_at b3 now msg r.peer).0 r.output
        (on_message-IsOther b3 now msg r.peer);
}

pub deliver-Polite : (b3 : Blake3) (msg : Message) → Polite (deliver b3 msg)
unfolding deliver
deliver-Polite b3 msg = keeps_bind SameSession SameSession-trans _ _ instant_now-Polite λ now.
    keeps_then SameSession SameSession-trans _ _ (deliver_at-Polite b3 msg now) check_ban-Polite

pub greet-Polite : Polite greet
unfolding greet writing
greet-Polite = record {
  keeps = λ r. send_all-other (start r.peer).0 r.output (start-IsOther r.peer);
}

note_timeout_at-Polite : (now : ℕ) → Polite (note_timeout_at now)
unfolding note_timeout_at
note_timeout_at-Polite now = record { keeps = λ r id. refl }

pub count_timeout-Polite : Polite count_timeout
unfolding count_timeout
count_timeout-Polite = keeps_bind SameSession SameSession-trans _ _ instant_now-Polite λ now.
    keeps_then SameSession SameSession-trans _ _ (note_timeout_at-Polite now) check_ban-Polite

module _ (kv : KvStore) where
  open kv use {State}

  abbrev pub SameWork : Syncer State → Syncer State → Type 0
  SameWork s x =
      SameSession s.session x.session × (x.pending ≡ s.pending) × (x.inflight ≡ s.inflight)

  pub SameWork-trans : (a b c : Syncer State) → SameWork a b → SameWork b c → SameWork a c
  SameWork-trans a b c (p, q, r) (p', q', r') = (λ id. p' id ∙ p id, q' ∙ q, r' ∙ r)

  abbrev pub Quiet : {A : Type 0} → Syncing kv A → Type 0
  Quiet m = Keeps SameWork m

  SameWork-refl : (s : Syncer State) → SameWork s s
  SameWork-refl s = ((λ id. refl), refl, refl)

  module _ {A : Type 0} where
    pub on_session-Quiet : (m : Serving A) → Polite m → Quiet (on_session kv m)
    unfolding on_session
    on_session-Quiet m h = record { keeps = λ s. (h.keeps s.session, refl, refl) }

    pub on_chain-Quiet : (m : Run kv A) → Quiet (on_chain kv m)
    unfolding on_chain
    on_chain-Quiet m = record { keeps = λ s. ((λ id. refl), refl, refl) }

    pub asked-Quiet : (f : State → Result StoreError A) → Quiet (asked kv f)
    unfolding asked
    asked-Quiet f = record { keeps = SameWork-refl }

    pub fails-Quiet : (e : NodeError) → Quiet (fails kv {A = A} e)
    unfolding fails
    fails-Quiet e = record { keeps = SameWork-refl }

    pub refuse-Quiet : (b : Breach) → Quiet (refuse kv {A = A} b)
    unfolding refuse
    refuse-Quiet b = fails-Quiet _

    pub returns-Quiet : (a : A) → Quiet (returns kv a)
    unfolding returns
    returns-Quiet a = record { keeps = SameWork-refl }

    pub either-Quiet : (b : Bool) (m n : Syncing kv A) → Quiet m → Quiet n → Quiet (either b m n)
    unfolding either
    either-Quiet true m n hm hn = hm
    either-Quiet false m n hm hn = hn

  module _ {A B : Type 0} where
    pub bind-Quiet :
        (m : Syncing kv A) (f : A → Syncing kv B)
        → Quiet m
        → ((a : A) → Quiet (f a))
        → Quiet (m >>= f)
    bind-Quiet = keeps_bind SameWork SameWork-trans

    pub then-Quiet : (m : Syncing kv A) (n : Syncing kv B) → Quiet m → Quiet n → Quiet (m >> n)
    then-Quiet = keeps_then SameWork SameWork-trans

  pub modify-Quiet :
      (f : Syncer State → Syncer State)
      → ((s : Syncer State) → SameWork s (f s))
      → Quiet (modify kv f)
  unfolding modify
  modify-Quiet f h = record { keeps = h }

  pub this-Quiet : Quiet (this kv)
  unfolding this
  this-Quiet = record { keeps = SameWork-refl }

  pub now_at-Quiet : Quiet (now_at kv)
  unfolding now_at
  now_at-Quiet = on_session-Quiet _ instant_now-Polite

  pub progress-Quiet : Quiet (progress kv)
  unfolding progress
  progress-Quiet =
      bind-Quiet _ _ now_at-Quiet λ now.
        modify-Quiet (λ s. record s { last_progress = now }) (λ s. ((λ id. refl), refl, refl))

  pub is_idle-Quiet : Quiet (is_idle kv)
  unfolding is_idle
  is_idle-Quiet = bind-Quiet _ _ now_at-Quiet λ now.
      bind-Quiet _ _ this-Quiet
        λ s. returns-Quiet (ltb session_idle_timeout (now - s.last_progress))

  pub refuse_idle-Quiet : Quiet (refuse_idle kv)
  unfolding refuse_idle
  refuse_idle-Quiet = bind-Quiet _ _ this-Quiet λ s. refuse-Quiet _
