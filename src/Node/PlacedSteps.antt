-- ===== src/Node/PlacedSteps.antt =====
-- The resends of the blocks phase and the place of each block.
use egg_project.Prelude.{ℕ, refl, Bool, true, false, Option, none, some, List, [], ◌∷◌, Result, leb}
use egg_project.Prelude.Assoc.{Assoc, lookup}
use egg_project.Types.{Hash256}
use egg_project.Exec.{◌>>=◌, ◌>>◌}
use egg_project.Exec.Rules.{Keeps, Preserves, Ensures-both, Leads-bind, Leads-then}
use egg_project.Kv.{KvStore}
use egg_project.Store.Records.{StoreError}
use egg_project.Node.Defs.{
  NodeError, Breach, max_block_retries, unexpected_not_found, not_found_after_retries,
  timeout_after_retries,
}
use egg_project.Node.Session.{Serving, either, count_timeout, ask_block}
use egg_project.Node.Syncer.{
  InflightEntry, Syncer, Syncing, on_session, asked, fails, returns, modify, this, now_at, progress,
}
use egg_project.Node.Download.{
  expired, refuse, request_again, on_not_found, resend_one, resend, tick, track, next_retries,
}
use egg_project.Node.Placed.{
  inserted_other, queued, flying, stored, IsPlaced, Calm, Placed-map, IsPlaced-kept,
}

module _ (kv : KvStore) (wanted : List Hash256) where
  open kv use {State}

  abbrev pub Nothing : Syncer State → Type 0
  Nothing s = Unit {0}

  abbrev pub Keeping : {A : Type 0} → Syncing kv A → Type 0
  Keeping m = Preserves (IsPlaced kv wanted) Nothing m

  module _ {A : Type 0} where
    Calm-Keeping : (m : Syncing kv A) → Keeps (Calm kv) m → Keeping m
    Calm-Keeping m c = record {
      leads = λ s v.
          Ensures-both (λ _. IsPlaced kv wanted) Nothing (m s)
            (λ a. IsPlaced-kept kv wanted s (m s).1 (c.keeps s) v) tt;
    }

    pub on_session-Keeping : (m : Serving A) → Keeping (on_session kv m)
    unfolding on_session
    on_session-Keeping m =
        Calm-Keeping _ (record { keeps = λ s. (((λ k h. h), refl, refl), refl, refl) })

    pub asked-Keeping : (f : State → Result StoreError A) → Keeping (asked kv f)
    unfolding asked
    asked-Keeping f =
        Calm-Keeping _ (record { keeps = λ s. (((λ k h. h), refl, refl), refl, refl) })

    pub fails-Keeping : (e : NodeError) → Keeping (fails kv {A = A} e)
    unfolding fails
    fails-Keeping e = record { leads = λ s v. tt }

    pub refuse-Keeping : (b : Breach) → Keeping (refuse kv {A = A} b)
    unfolding refuse
    refuse-Keeping b = fails-Keeping _

    pub returns-Keeping : (a : A) → Keeping (returns kv a)
    unfolding returns
    returns-Keeping a = record { leads = λ s v. v }

    pub either-Keeping :
        (b : Bool) (m n : Syncing kv A) → Keeping m → Keeping n → Keeping (either b m n)
    unfolding either
    either-Keeping true m n hm hn = hm
    either-Keeping false m n hm hn = hn

  module _ {A B : Type 0} where
    pub bind-Keeping :
        (m : Syncing kv A) (f : A → Syncing kv B)
        → Keeping m
        → ((a : A) → Keeping (f a))
        → Keeping (m >>= f)
    bind-Keeping = Leads-bind (IsPlaced kv wanted) (IsPlaced kv wanted) (IsPlaced kv wanted) Nothing

    pub then-Keeping :
        (m : Syncing kv A) (n : Syncing kv B) → Keeping m → Keeping n → Keeping (m >> n)
    then-Keeping = Leads-then (IsPlaced kv wanted) (IsPlaced kv wanted) (IsPlaced kv wanted) Nothing

  pub this-Keeping : Keeping (this kv)
  unfolding this
  this-Keeping = record { leads = λ s v. v }

  pub now_at-Keeping : Keeping (now_at kv)
  unfolding now_at
  now_at-Keeping = on_session-Keeping _

  set_progress-Keeping : (now : ℕ) → Keeping (modify kv (λ s. record s { last_progress = now }))
  unfolding modify
  set_progress-Keeping now =
      Calm-Keeping _ (record { keeps = λ s. (((λ k h. h), refl, refl), refl, refl) })

  pub progress-Keeping : Keeping (progress kv)
  unfolding progress
  progress-Keeping = bind-Keeping _ _ now_at-Keeping set_progress-Keeping

  track-Keeping : (id : Hash256) (n now : ℕ) → Keeping (track kv id n now)
  unfolding track modify
  track-Keeping id n now = record {
    leads = λ s v. record {
      genesis = v.genesis;
      placed = λ y h.
          Placed-map kv s.pending s.pending s.inflight _ s.chain_state s.chain_state y queued
            (λ e.
              flying (inserted_other id y (record { retries = n; last_sent = now }) s.inflight e))
            stored (v.placed y h);
    };
  }

  request_again-Keeping :
      (id : Hash256) (e : InflightEntry) (now : ℕ) → Keeping (request_again kv id e now)
  unfolding request_again
  request_again-Keeping id e now =
      then-Keeping _ _ (track-Keeping id (next_retries e) now) (on_session-Keeping (ask_block id))

  pub on_not_found-Keeping :
      (id : Hash256) (o : Option InflightEntry) → Keeping (on_not_found kv id o)
  unfolding on_not_found
  on_not_found-Keeping id none = refuse-Keeping (unexpected_not_found id)
  on_not_found-Keeping id (some e) =
      either-Keeping (leb max_block_retries e.retries) _ _
        (refuse-Keeping (not_found_after_retries id))
        (bind-Keeping _ _ now_at-Keeping (request_again-Keeping id e))

  resend_one-Keeping :
      (now : ℕ) (id : Hash256) (o : Option InflightEntry) → Keeping (resend_one kv now id o)
  unfolding resend_one
  resend_one-Keeping now id none = returns-Keeping tt
  resend_one-Keeping now id (some e) =
      either-Keeping (leb max_block_retries e.retries) _ _
        (refuse-Keeping (timeout_after_retries id))
        (then-Keeping _ _ (on_session-Keeping count_timeout) (request_again-Keeping id e now))

  resend-Keeping : (now : ℕ) (ids : List Hash256) → Keeping (resend kv now ids)
  unfolding resend
  resend-Keeping now [] = record { leads = λ s v. v }
  resend-Keeping now (id ∷ ids) = record {
    leads = λ s.
        (then-Keeping _ _ (resend_one-Keeping now id (lookup id s.inflight))
            (resend-Keeping now ids)).leads
          s;
  }

  pub tick-Keeping : (order : Assoc InflightEntry → Assoc InflightEntry) → Keeping (tick kv order)
  unfolding tick
  tick-Keeping order =
      bind-Keeping _ _ now_at-Keeping λ now.
        bind-Keeping _ _ this-Keeping λ s. resend-Keeping now (expired now (order s.inflight))
