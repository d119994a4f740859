-- ===== src/Node/Fair.antt =====
-- The methods of the blocks phase and the account of the requests.
use egg_project.Prelude.{
  ℕ, ◌+◌, ◌≤◌, ◌<◌, ◌≡◌, refl, sym, ap, ◌∙◌, subst, Bool, true, false, some, List, [], ◌∷◌, ◌++◌,
  length, All, Result, ok, err, ◌⊎◌, inl, inr, arith,
}
use egg_project.Prelude.Assoc.{Assoc, lookup, insert}
use egg_project.Types.{Hash256}
use egg_project.Exec.{◌>>=◌, ◌>>◌}
use egg_project.Exec.Rules.{
  Preserves, Leads-bind, Leads-then, Ensures, Ensures-both, Ensures-bind, Ensures-then,
}
use egg_project.Kv.{KvStore}
use egg_project.Net.Message.{Message, get_block}
use egg_project.Net.Peer.Handlers.{request_block}
use egg_project.Node.Defs.{NodeError, max_block_retries, block_window}
use egg_project.Node.Session.{Session, writing, either, ask_block}
use egg_project.Node.Syncer.{InflightEntry, Syncer, Syncing, on_session, modify}
use egg_project.Node.Download.{track, request_new, request_again, next_retries}
use egg_project.Node.Requests.{requests, send-cases}
use egg_project.Node.Attempts.{Attempts, Attempts-new, Attempts-again}
use egg_project.Node.Quiet.{SameWork, Quiet}

same_zero :
    (a b : List Message) (xs : List Hash256)
    → ((id : Hash256) → requests id b ≡ requests id a)
    → All (λ id. requests id a ≡ 0) xs
    → All (λ id. requests id b ≡ 0) xs
same_zero a b [] h u = tt
same_zero a b (x ∷ xs) h u = (h x ∙ u.0, same_zero a b xs h u.1)

Attempts-same :
    (a b : List Message) (p : List Hash256) (m : Assoc InflightEntry)
    → ((id : Hash256) → requests id b ≡ requests id a)
    → Attempts a p m
    → Attempts b p m
Attempts-same a b p m h f = record {
  bounded = λ id. omega (arith, h id, f.bounded id);
  counted = λ id e q. let (n, r) = f.counted id e q in (h id ∙ n, r);
  unasked = same_zero a b p h f.unasked;
  distinct = f.distinct;
  window = f.window;
}

module _ (kv : KvStore) where
  open kv use {State}

  abbrev pub IsFair : Syncer State → Type 0
  IsFair s = Attempts s.session.output.sent s.pending s.inflight

  abbrev pub IsBounded : Syncer State → Type 0
  IsBounded s = (id : Hash256) → requests id s.session.output.sent ≤ 1 + max_block_retries

  pub IsFair-kept : (s x : Syncer State) → SameWork kv s x → IsFair s → IsFair x
  IsFair-kept s x (h, p, m) f =
      subst (λ q. Attempts x.session.output.sent q x.inflight) (sym p)
        (subst (Attempts x.session.output.sent s.pending) (sym m)
          (Attempts-same s.session.output.sent x.session.output.sent s.pending s.inflight h f))

  -- A run that starts with a fair account ends with one, or with an error and the bound.
  abbrev pub RunsFair : {A : Type 0} → Result NodeError A × Syncer State → Type 0
  RunsFair = Ensures (λ _. IsFair) IsBounded

  abbrev pub Fair : {A : Type 0} → Syncing kv A → Type 0
  Fair m = Preserves IsFair IsBounded m

  module _ {A : Type 0} where
    pub Quiet-Fair : (m : Syncing kv A) → Quiet kv m → Fair m
    Quiet-Fair m q = record {
      leads = λ s f.
          let after = IsFair-kept s (m s).1 (q.keeps s) f in
          Ensures-both (λ _. IsFair) IsBounded (m s) (λ a. after) after.bounded;
    }

    pub either-Fair : (b : Bool) (m n : Syncing kv A) → Fair m → Fair n → Fair (either b m n)
    unfolding either
    either-Fair true m n hm hn = hm
    either-Fair false m n hm hn = hn

  module _ {A B : Type 0} where
    pub bind-Fair :
        (m : Syncing kv A) (f : A → Syncing kv B) → Fair m → ((a : A) → Fair (f a)) → Fair (m >>= f)
    bind-Fair = Leads-bind IsFair IsFair IsFair IsBounded

    pub then-Fair : (m : Syncing kv A) (n : Syncing kv B) → Fair m → Fair n → Fair (m >> n)
    then-Fair = Leads-then IsFair IsFair IsFair IsBounded

    -- A quiet call and what follows it, for any outcome.
    pub Quiet-bind :
        (P : B → Syncer State → Type 0) (m : Syncing kv A) (f : A → Syncing kv B) (s : Syncer State)
        → Quiet kv m
        → IsFair s
        → ((a : A) (x : Syncer State) → SameWork kv s x → Ensures P IsBounded (f a x))
        → Ensures P IsBounded ((m >>= f) s)
    Quiet-bind P m f s q v k =
        Ensures-bind (λ _. SameWork kv s) IsBounded P m f s
          (Ensures-both (λ _. SameWork kv s) IsBounded (m s) (λ a. q.keeps s)
            (IsFair-kept s (m s).1 (q.keeps s) v).bounded)
          k

  pub modify-Fair :
      (f : Syncer State → Syncer State)
      → ((s : Syncer State) → IsFair s → IsFair (f s))
      → Fair (modify kv f)
  unfolding modify
  modify-Fair f h = record { leads = h }

  -- A request is sent and counted, or the call fails and nothing was sent.
  pub ask_cases :
      (id : Hash256) (s : Syncer State)
      → ((x : Session) × (on_session kv (ask_block id) s ≡ (ok tt, record s { session = x }))
          × (x.output.sent ≡ s.session.output.sent ++ get_block id ∷ []))
        ⊎ ((e : NodeError) × (x : Session) × (on_session kv (ask_block id) s
              ≡ (err e, record s { session = x }))
            × (x.output.sent ≡ s.session.output.sent))
  unfolding on_session ask_block writing request_block
  ask_cases id s = elim (send-cases (get_block id) s.session.output) [
    | inl p ↦ inl (
      _,
      ap
          (λ r. (
            r.0,
            record s {
              session = record s.session {
                output = r.1;
                peer = (request_block id s.session.peer).1;
              };
            },
          ))
          p,
      refl,
    )
    | inr (e, p) ↦ inr (
      e,
      _,
      ap
          (λ r. (
            r.0,
            record s {
              session = record s.session {
                output = r.1;
                peer = (request_block id s.session.peer).1;
              };
            },
          ))
          p,
      refl,
    )
  ]

  abbrev Asked : Hash256 → Syncer State → Syncer State → Type 0
  Asked id s x =
      (x.pending ≡ s.pending)
      × (x.inflight ≡ s.inflight)
      × (x.session.output.sent ≡ s.session.output.sent ++ get_block id ∷ [])

  ask-Ensures :
      (id : Hash256) (s : Syncer State)
      → IsBounded s
      → Ensures (λ _. Asked id s) IsBounded (on_session kv (ask_block id) s)
  ask-Ensures id s b = elim (ask_cases id s) [
    | inl (x, p, q) ↦ subst (Ensures (λ _. Asked id s) IsBounded) (sym p) (refl, refl, q)
    | inr (e, x, p, q) ↦
        subst (Ensures (λ _. Asked id s) IsBounded) (sym p)
          (λ y. subst (λ ms. requests y ms ≤ 1 + max_block_retries) (sym q) (b y))
  ]

  -- The block at the head of the queue, taken from it.
  pub record Taken (id : Hash256) (rest : List Hash256) (s : Syncer State) : Type 0 where
    pub queue : s.pending ≡ rest
    pub account : Attempts s.session.output.sent (id ∷ rest) s.inflight
    pub room : length s.inflight < block_window

  abbrev pub Filling : List Hash256 → Syncer State → Type 0
  Filling rest s = (s.pending ≡ rest) × IsFair s

  pub request_new_fair :
      (now : ℕ) (id : Hash256) (rest : List Hash256) (s : Syncer State)
      → Taken id rest s
      → Ensures (λ _. Filling rest) IsBounded (request_new kv now id s)
  unfolding request_new track modify
  request_new_fair now id rest s t =
      let en : InflightEntry = record { retries = 0; last_sent = now } in
      let done = Attempts-new s.session.output.sent rest s.inflight id now t.account t.room in
      Ensures-then (λ _. Asked id s) IsBounded (λ _. Filling rest) (on_session kv (ask_block id))
        (track kv id 0 now) s (ask-Ensures id s t.account.bounded)
        λ a x (p, m, q). (
          p ∙ t.queue,
          subst (λ y. Attempts x.session.output.sent y (insert id en x.inflight))
              (sym (p ∙ t.queue))
              (subst (λ y. Attempts x.session.output.sent rest (insert id en y)) (sym m)
                (subst (λ y. Attempts y rest (insert id en s.inflight)) (sym q) done)),
        )

  pub request_again_fair :
      (now : ℕ) (id : Hash256) (e : InflightEntry) (s : Syncer State)
      → IsFair s
      → lookup id s.inflight ≡ some e
      → e.retries < max_block_retries
      → RunsFair (request_again kv id e now s)
  unfolding request_again track modify ◌>>◌ ◌>>=◌
  request_again_fair now id e s f q l =
      let en : InflightEntry = record { retries = next_retries e; last_sent = now } in
      again (record s { inflight = insert id en s.inflight })
        (Attempts-again s.session.output.sent s.pending s.inflight id now e f q l) f.bounded
    where
      again :
          (x : Syncer State)
          → Attempts (x.session.output.sent ++ get_block id ∷ []) x.pending x.inflight
          → IsBounded x
          → RunsFair (on_session kv (ask_block id) x)
      again x g b = elim (ask_cases id x) [
        | inl (y, p, q) ↦
            subst RunsFair (sym p) (subst (λ ms. Attempts ms x.pending x.inflight) (sym q) g)
        | inr (k, y, p, q) ↦
            subst RunsFair (sym p)
              (λ z. subst (λ ms. requests z ms ≤ 1 + max_block_retries) (sym q) (b z))
      ]
