-- ===== src/Node/FairSteps.antt =====
-- The steps of the blocks phase and the account of the requests.
use egg_project.Prelude.{
  ℕ, ◌<◌, ◌≡◌, refl, sym, subst, Bool, true, false, some, List, [], ◌∷◌, length, Result, ltb, leb,
  ltb→lt, inl, inr, Option-cases, arith,
}
use egg_project.Prelude.Assoc.{Assoc, lookup}
use egg_project.Types.{Hash256}
use egg_project.Exec.{Exec, ◌>>=◌, ◌>>◌}
use egg_project.Exec.Rules.{Ensures-both, Ensures-bind, Ensures-then}
use egg_project.Kv.{KvStore}
use egg_project.Store.Ops.{has_block}
use egg_project.Node.Defs.{
  Breach, block_window, max_block_retries, unexpected_not_found, not_found_after_retries,
  timeout_after_retries,
}
use egg_project.Node.Session.{either, count_timeout}
use egg_project.Node.Syncer.{InflightEntry, Syncer, on_session, asked, returns, modify, now_at}
use egg_project.Node.Download.{
  expired, refuse, fill_window, request_new, request_again, on_not_found, resend_one, resend, tick,
}
use egg_project.Node.Attempts.{Attempts, Attempts-skip}
use egg_project.Node.Quiet.{
  SameWork, count_timeout-Polite, on_session-Quiet, refuse-Quiet, returns-Quiet, this-Quiet,
  now_at-Quiet,
}
use egg_project.Node.Fair.{
  IsFair, IsBounded, RunsFair, Fair, IsFair-kept, Quiet-Fair, bind-Fair, Quiet-bind, Taken, Filling,
  request_new_fair, request_again_fair,
}

pub either_split :
    {S E A : Type 0} (P : Result E A × S → Type 0) (b : Bool) (m n : Exec S E A) (s : S)
    → (b ≡ true → P (m s))
    → (b ≡ false → P (n s))
    → P (either b m n s)
unfolding either
either_split P true m n s h k = h refl
either_split P false m n s h k = k refl

few_retries : (n : ℕ) → leb max_block_retries n ≡ false → n < max_block_retries
few_retries n h = ground (arith, h)

module _ (kv : KvStore) where
  open kv use {State}

  pub done-Fair : Fair kv (returns kv tt)
  done-Fair = Quiet-Fair kv _ (returns-Quiet kv tt)

  pub refuse-Fair : (b : Breach) → Fair kv (refuse kv {A = Unit {0}} b)
  refuse-Fair b = Quiet-Fair kv (refuse kv b) (refuse-Quiet kv b)

  refuse_fair :
      (b : Breach) (s : Syncer State) → IsFair kv s → RunsFair kv (refuse kv {A = Unit {0}} b s)
  refuse_fair b s f = (refuse-Fair b).leads s f

  -- The block at the head of the queue, in the store or requested.
  take_head :
      (now : ℕ) (id : Hash256) (rest : List Hash256) (s : Syncer State)
      → ((x : Syncer State)
          → x.pending ≡ rest
          → IsFair kv x
          → RunsFair kv (fill_window kv now rest x))
      → Taken kv id rest s
      → RunsFair kv (
          (asked kv (has_block kv id) >>= λ have.
          either have (fill_window kv now rest) (request_new kv now id >> fill_window kv now rest))
            s)
  take_head now id rest s next t =
      Ensures-bind (λ _. Taken kv id rest) (IsBounded kv) (λ _. IsFair kv)
        (asked kv (has_block kv id)) _ s
        (unfold asked in
          Ensures-both (λ _. Taken kv id rest) (IsBounded kv) _ (λ a. t) t.account.bounded)
        λ have x u.
          either_split (RunsFair kv) have _ _ x
            (λ _. next x u.queue (
              subst (λ q. Attempts x.session.output.sent q x.inflight) (sym u.queue)
                (Attempts-skip x.session.output.sent rest x.inflight id u.account)))
            (λ _.
              Ensures-then (λ _. Filling kv rest) (IsBounded kv) (λ _. IsFair kv)
                (request_new kv now id) (fill_window kv now rest) x
                (request_new_fair kv now id rest x u) (λ a y w. next y w.0 w.1))

  -- The window is filled from the queue, one block after the other.
  pub fill_window_fair :
      (now : ℕ) (ids : List Hash256) (s : Syncer State)
      → s.pending ≡ ids
      → IsFair kv s
      → RunsFair kv (fill_window kv now ids s)
  unfolding fill_window modify ◌>>◌ ◌>>=◌
  fill_window_fair now [] s p f = f
  fill_window_fair now (id ∷ rest) s p f =
      either_split (RunsFair kv) (ltb (length s.inflight) block_window) _ _ s
        (λ q.
          take_head now id rest (record s { pending = rest }) (fill_window_fair now rest)
            (record {
              queue = refl;
              account = subst (λ y. Attempts s.session.output.sent y s.inflight) p f;
              room = ltb→lt (length s.inflight) block_window q;
            }))
        (λ q. f)

  again_after :
      (now : ℕ) (id : Hash256) (e : InflightEntry) (s x : Syncer State)
      → IsFair kv s
      → lookup id s.inflight ≡ some e
      → e.retries < max_block_retries
      → SameWork kv s x
      → RunsFair kv (request_again kv id e now x)
  again_after now id e s x f q l w =
      request_again_fair kv now id e x (IsFair-kept kv s x w f)
        (subst (λ m. lookup id m ≡ some e) (sym w.2) q) l

  pub on_not_found_fair :
      (id : Hash256) (s : Syncer State)
      → IsFair kv s
      → RunsFair kv (on_not_found kv id (lookup id s.inflight) s)
  on_not_found_fair id s f = elim (Option-cases (lookup id s.inflight)) [
    | inl q ↦ rw q (unfold on_not_found in refuse_fair (unexpected_not_found id) s f)
    | inr (e, q) ↦ rw q (found e q)
  ]
    where
      found :
          (e : InflightEntry)
          → lookup id s.inflight ≡ some e
          → RunsFair kv (on_not_found kv id (some e) s)
      found e q =
          unfold on_not_found in
          either_split (RunsFair kv) (leb max_block_retries e.retries) _ _ s
            (λ _. refuse_fair (not_found_after_retries id) s f)
            λ r.
              Quiet-bind kv (λ _. IsFair kv) (now_at kv) (request_again kv id e) s (now_at-Quiet kv)
                f λ now x w. again_after now id e s x f q (few_retries _ r) w

  resend_one_fair :
      (now : ℕ) (id : Hash256) (s : Syncer State)
      → IsFair kv s
      → RunsFair kv (resend_one kv now id (lookup id s.inflight) s)
  resend_one_fair now id s f = elim (Option-cases (lookup id s.inflight)) [
    | inl q ↦ rw q (unfold resend_one in done-Fair.leads s f)
    | inr (e, q) ↦ rw q (found e q)
  ]
    where
      found :
          (e : InflightEntry)
          → lookup id s.inflight ≡ some e
          → RunsFair kv (resend_one kv now id (some e) s)
      found e q =
          unfold resend_one ◌>>◌ in
          either_split (RunsFair kv) (leb max_block_retries e.retries) _ _ s
            (λ _. refuse_fair (timeout_after_retries id) s f)
            λ r.
              Quiet-bind kv (λ _. IsFair kv) (on_session kv count_timeout)
                (λ _. request_again kv id e now) s (on_session-Quiet kv _ count_timeout-Polite) f
                λ a x w. again_after now id e s x f q (few_retries _ r) w

  resend-Fair : (now : ℕ) (ids : List Hash256) → Fair kv (resend kv now ids)
  unfolding resend
  resend-Fair now [] = record { leads = λ s f. f }
  resend-Fair now (id ∷ ids) = record {
    leads = λ s f.
        Ensures-then (λ _. IsFair kv) (IsBounded kv) (λ _. IsFair kv)
          (resend_one kv now id (lookup id s.inflight)) (resend kv now ids) s
          (resend_one_fair now id s f) (λ a x w. (resend-Fair now ids).leads x w);
  }

  module _ (order : Assoc InflightEntry → Assoc InflightEntry) where
    pub tick-Fair : Fair kv (tick kv order)
    unfolding tick
    tick-Fair = bind-Fair kv _ _ (Quiet-Fair kv _ (now_at-Quiet kv)) λ now.
        bind-Fair kv _ _ (Quiet-Fair kv _ (this-Quiet kv))
          λ s. resend-Fair now (expired now (order s.inflight))
