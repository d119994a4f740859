-- ===== src/Node/Bound.antt =====
-- How often `run_syncer_once` asks for a block: the queue before the blocks phase, and the session.
use egg_project.Prelude.{
  ℕ, ◌+◌, ◌≤◌, ◌≡◌, refl, sym, ap, ◌∙◌, subst, Bool, true, false, some, List, [], ◌∷◌, ◌++◌, length,
  All, All-append, Result, ok, err, bytes_eq, bytes_eq_iff, inl, inr, Bool-cases, arith,
}
use egg_project.Prelude.Assoc.{Assoc, lookup, contains_key, insert, lookup-insert}
use egg_project.Types.{Hash256, ChainSpec}
use egg_project.Exec.{◌>>=◌}
use egg_project.Exec.Rules.{
  Leads, Leads-bind, Leads-then, Ensures, Ensures-both, ensures_any, Ensures-weaken, Ensures-bind,
  Ensures-then,
}
use egg_project.Kv.{KvStore}
use egg_project.Crypto.Hashing.{Blake3}
use egg_project.Net.Peer.Defs.{IdSet}
use egg_project.Store.Ops.{has_block}
use egg_project.Chain.Defs.{ChainStateError, ChainState}
use egg_project.Chain.Open.{open_or_init}
use egg_project.Chain.Validate.{validate_best_chain}
use egg_project.Node.Defs.{max_block_retries, block_window, Input, Output}
use egg_project.Node.Session.{either, greet}
use egg_project.Node.Syncer.{InflightEntry, Syncer, Syncing, asked, returns, modify, this}
use egg_project.Node.Download.{push_pending, queue_missing, queue_downloaded, sync}
use egg_project.Node.Requests.{requests}
use egg_project.Node.Attempts.{Distinct}
use egg_project.Node.Quiet.{
  SameWork, Quiet, greet-Polite, on_session-Quiet, on_chain-Quiet, progress-Quiet,
}
use egg_project.Node.Fair.{IsFair, IsBounded, Quiet-Fair, then-Fair}
use egg_project.Node.FairSteps.{either_split}
use egg_project.Node.FairDownload.{download-Fair}
use egg_project.Node.HeadersQuiet.{sync_headers-Quiet}
use egg_project.Node.Run.{new_syncer, sync_opened, run_syncer_once}

module _ (id : Hash256) (seen : IdSet) where
  seen_self : contains_key id (insert id tt seen) ≡ true
  unfolding contains_key
  seen_self = ground (arith, lookup-insert id id tt seen, bytes_eq_iff id id)

  seen_other :
      (x : Hash256) → contains_key x seen ≡ true → contains_key x (insert id tt seen) ≡ true
  unfolding contains_key
  seen_other x h = ground (arith, lookup-insert id x tt seen, h)

Distinct-snoc :
    (id : Hash256) (xs : List Hash256)
    → Distinct xs
    → All (λ x. bytes_eq x id ≡ false) xs
    → Distinct (xs ++ id ∷ [])
Distinct-snoc id [] d h = (tt, tt)
Distinct-snoc id (x ∷ xs) d h =
    (All-append (λ y. bytes_eq x y ≡ false) xs (id ∷ []) d.0 (h.0, tt), Distinct-snoc id xs d.1 h.1)

module _ (kv : KvStore) (b3 : Blake3) where
  open kv use {State}

  -- A session that has asked for no block, while its queue is built.
  abbrev Unasked : Syncer State → Type 0
  Unasked s =
      ((id : Hash256) → requests id s.session.output.sent ≡ 0)
      × (s.inflight ≡ [])
      × Distinct s.pending

  abbrev Seen : IdSet → List Hash256 → Type 0
  Seen seen ids = All (λ x. contains_key x seen ≡ true) ids

  Seen-insert :
      (id : Hash256) (seen : IdSet) (xs : List Hash256) → Seen seen xs → Seen (insert id tt seen) xs
  Seen-insert id seen [] h = tt
  Seen-insert id seen (x ∷ xs) h = (seen_other id seen x h.0, Seen-insert id seen xs h.1)

  unseen_differs :
      (id : Hash256) (seen : IdSet) (xs : List Hash256)
      → contains_key id seen ≡ false
      → Seen seen xs
      → All (λ x. bytes_eq x id ≡ false) xs
  unseen_differs id seen [] n h = tt
  unseen_differs id seen (x ∷ xs) n h = (
    elim (Bool-cases (bytes_eq x id)) [
      | inl e ↦ absurd (cc (h.0, n, (bytes_eq_iff x id).0 e))
      | inr e ↦ e
    ],
    unseen_differs id seen xs n h.1,
  )

  IsBounded-by_none : (s : Syncer State) → Unasked s → IsBounded kv s
  IsBounded-by_none s u id = omega (arith, u.0 id)

  -- The queue with the ids that were looked at.
  abbrev Queued : IdSet → Syncer State → Type 0
  Queued seen s = Unasked s × Seen seen s.pending

  queue_one :
      (id : Hash256) (seen : IdSet) (have : Bool) (s : Syncer State)
      → contains_key id seen ≡ false
      → Unasked s
      → Seen seen s.pending
      → Ensures
          (λ _ x. Unasked x × Seen (insert id tt seen) x.pending)
          (IsBounded kv)
          (either have (returns kv tt) (push_pending kv id) s)
  unfolding returns push_pending modify
  queue_one id seen have s n u h =
      either_split (Ensures (λ _ x. Unasked x × Seen (insert id tt seen) x.pending) (IsBounded kv))
        have _ _ s (λ _. (u, Seen-insert id seen s.pending h))
        (λ _. (
          (u.0, u.1, Distinct-snoc id s.pending u.2 (unseen_differs id seen s.pending n h)),
          All-append (λ x. contains_key x (insert id tt seen) ≡ true) s.pending (id ∷ [])
              (Seen-insert id seen s.pending h) (seen_self id seen, tt),
        ))

  queue_missing_fair :
      (ids : List Hash256) (seen : IdSet) (s : Syncer State)
      → Unasked s
      → Seen seen s.pending
      → Ensures (λ _. Unasked) (IsBounded kv) (queue_missing kv ids seen s)
  unfolding queue_missing
  queue_missing_fair [] seen s u h = u
  queue_missing_fair (id ∷ ids) seen s u h =
      either_split (Ensures (λ _. Unasked) (IsBounded kv)) (contains_key id seen) _ _ s
        (λ _. queue_missing_fair ids seen s u h)
        λ n.
          Ensures-bind (λ _ x. Unasked x × Seen seen x.pending) (IsBounded kv) (λ _. Unasked)
            (asked kv (has_block kv id)) _ s
            (unfold asked in
              Ensures-both (λ _ x. Unasked x × Seen seen x.pending) (IsBounded kv) _ (λ a. (u, h))
                (IsBounded-by_none s u))
            λ have x w.
              Ensures-then (λ _ y. Unasked y × Seen (insert id tt seen) y.pending) (IsBounded kv)
                (λ _. Unasked) (either have (returns kv tt) (push_pending kv id))
                (queue_missing kv ids (insert id tt seen)) x (queue_one id seen have x n w.0 w.1)
                λ a y v. queue_missing_fair ids (insert id tt seen) y v.0 v.1

  Unasked-Fair : (s : Syncer State) → Unasked s → IsFair kv s
  Unasked-Fair s (zero_requests, empty, d) = record {
    bounded = λ id. omega (arith, zero_requests id);
    counted = λ id e q. absurd (nothing id e (subst (λ m. lookup id m ≡ some e) empty q));
    unasked = all_zero s.pending;
    distinct = d;
    window = subst (λ m. length m ≤ block_window) (sym empty) (omega arith);
  }
    where
      nothing : (id : Hash256) (e : InflightEntry) → lookup id [] ≡ some e → ⊥
      nothing id e q = unfold lookup in cc q

      all_zero : (xs : List Hash256) → All (λ id. requests id s.session.output.sent ≡ 0) xs
      all_zero [] = tt
      all_zero (x ∷ xs) = (zero_requests x, all_zero xs)

  -- A session before the blocks phase.
  abbrev Started : Syncer State → Type 0
  Started s =
      ((id : Hash256) → requests id s.session.output.sent ≡ 0)
      × (s.inflight ≡ [])
      × (s.pending ≡ [])

  Started-kept : (s x : Syncer State) → SameWork kv s x → Started s → Started x
  Started-kept s x w h = (λ id. w.0 id ∙ h.0 id, w.2 ∙ h.1, w.1 ∙ h.2)

  -- A quiet call before the blocks phase.
  Quiet-start :
      {A : Type 0} (m : Syncing kv A) → Quiet kv m → Leads Started Started (IsBounded kv) m
  Quiet-start m q = record {
    leads = λ s h.
        let after = Started-kept s (m s).1 (q.keeps s) h in
        Ensures-both (λ _. Started) (IsBounded kv) (m s) (λ a. after)
          (λ id. omega (arith, after.0 id));
  }

  abbrev F : Syncer State → Type 0
  F = IsFair kv

  abbrev Q : Syncer State → Type 0
  Q = IsBounded kv

  module _ (fuel : ℕ) (order : Assoc InflightEntry → Assoc InflightEntry) where
    queue-Leads : Leads Started (IsFair kv) (IsBounded kv) (queue_downloaded kv)
    unfolding queue_downloaded this ◌>>=◌
    queue-Leads = record {
      leads = λ s (z, m, p).
          Ensures-weaken (λ _. Unasked) (IsBounded kv) (λ _. IsFair kv)
            (queue_missing kv s.downloaded_ids [] s)
            (queue_missing_fair s.downloaded_ids [] s (z, m, subst Distinct (sym p) tt)
              (subst (Seen []) (sym p) tt))
            (λ a x u. Unasked-Fair x u);
    }

    sync-Leads :
        (n : ℕ) (i : Input) → Leads Started (IsFair kv) (IsBounded kv) (sync kv fuel b3 order n i)
    unfolding sync
    sync-Leads n i =
        Leads-then Started Started F Q _ _ (Quiet-start _ (on_session-Quiet kv greet greet-Polite))
          (Leads-then Started Started F Q _ _ (Quiet-start _ (progress-Quiet kv)) (
            Leads-bind Started Started F Q _ _ (Quiet-start _ (sync_headers-Quiet kv b3 n i))
              λ left. Leads-then Started F F Q _ _ queue-Leads (
                then-Fair kv _ _ (Quiet-Fair kv _ (progress-Quiet kv)) (
                  then-Fair kv _ _ (download-Fair kv fuel b3 order n left)
                    (Quiet-Fair kv _ (on_chain-Quiet kv (validate_best_chain kv b3 fuel)))))))

    -- What a session has sent on a fresh connection asks for no block more than three times.
    sync-IsBounded :
        (n : ℕ) (i : Input) (s : Syncer State)
        → Started s
        → IsBounded kv (sync kv fuel b3 order n i s).1
    sync-IsBounded n i s h =
        ensures_any (λ _. IsFair kv) (IsBounded kv) (sync kv fuel b3 order n i s)
          ((sync-Leads n i).leads s h) (λ a x f. f.bounded) (λ x b. b)

    none_asked : (id : Hash256) → requests id [] ≤ 1 + max_block_retries
    unfolding requests
    none_asked id = omega arith

    opened_bounded :
        (batch_max n : ℕ) (i : Input) (o : Output)
        (r : Result ChainStateError (ChainState State) × State)
        → o.sent ≡ []
        → (id : Hash256)
        → requests id (sync_opened kv b3 fuel order batch_max n i o r).1.0.sent
          ≤ 1 + max_block_retries
    unfolding sync_opened
    opened_bounded batch_max n i o (ok st, s) e id =
        sync-IsBounded n i (new_syncer kv b3 fuel order batch_max o st)
          (λ x. ap (requests x) e ∙ (unfold requests in refl), refl, refl) id
    opened_bounded batch_max n i o (err x, s) e id =
        subst (λ ms. requests id ms ≤ 1 + max_block_retries) (sym e) (none_asked id)

    -- However the network, the clock and the peer behave, and whether the session succeeds or fails,
    -- `run_syncer_once` on a new connection asks for no block more than
    -- `1 + MAX_BLOCK_RETRIES` = 3 times.
    pub requests-run_syncer_once :
        (batch_max n : ℕ) (i : Input) (o : Output) (spec : ChainSpec) (s : State) (id : Hash256)
        → o.sent ≡ []
        → requests id (run_syncer_once kv b3 fuel order batch_max n i o spec s).1.0.sent
          ≤ 1 + max_block_retries
    unfolding run_syncer_once
    requests-run_syncer_once batch_max n i o spec s id e =
        opened_bounded batch_max n i o (open_or_init kv b3 fuel spec s) e id
