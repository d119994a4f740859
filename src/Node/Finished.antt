-- ===== src/Node/Finished.antt =====
-- The blocks phase of `run_syncer_once`, its loop, and what follows it.
use egg_project.Prelude.{ℕ, suc, zero, ◌≡◌, refl, subst, true, ◌&&◌, List, [], ◌∷◌, ◌-◌, ltb}
use egg_project.Prelude.Assoc.{Assoc, lookup, contains_key}
use egg_project.Types.{Hash256}
use egg_project.Exec.{◌>>=◌, ◌>>◌}
use egg_project.Exec.Rules.{Ensures, Leads, Leads-bind, Leads-then, Ensures-both, Ensures-then}
use egg_project.Kv.{KvStore, KvLaws}
use egg_project.Crypto.Hashing.{Blake3}
use egg_project.Store.Keys.{k_block}
use egg_project.Store.Ops.{any_eq}
use egg_project.Chain.Validate.{validate_best_chain}
use egg_project.Chain.Checked.{validate_best_chain-Keeps}
use egg_project.Chain.Lasting.{Lasting, Lasting-Lawful}
use egg_project.Chain.Placed.{HasBlock}
use egg_project.Node.Defs.{
  session_idle_timeout, Input, recv, Incoming, message, timeout, closed, fault, incoming,
}
use egg_project.Node.Session.{either}
use egg_project.Node.Syncer.{
  progress, InflightEntry, Syncer, Syncing, on_chain, fails, returns, this, is_idle,
}
use egg_project.Node.Download.{
  queue_downloaded, is_empty, blocks_incoming, fill, refuse_idle, download, refuse,
}
use egg_project.Node.FairSteps.{either_split}
use egg_project.Node.Placed.{Placed, queued, flying, stored, IsPlaced}
use egg_project.Node.Queueing.{Ready, queue_downloaded-Leads}
use egg_project.Node.PlacedSteps.{
  Nothing, Keeping, returns-Keeping, bind-Keeping, this-Keeping, now_at-Keeping, progress-Keeping,
  tick-Keeping,
}
use egg_project.Node.PlacedFill.{fill-Keeping}
use egg_project.Node.PlacedBlocks.{on_block_message-Keeping}

none_left : (id : Hash256) (p : List Hash256) → p ≡ [] → any_eq id p ≡ true → ⊥
none_left id p e h = absurd (unfold any_eq in cc (subst (λ l. any_eq id l ≡ true) e h))

none_flying : (id : Hash256) (m : Assoc InflightEntry) → m ≡ [] → contains_key id m ≡ true → ⊥
none_flying id m e h =
    absurd (unfold contains_key lookup in cc (subst (λ l. contains_key id l ≡ true) e h))

both_empty :
    (p : List Hash256) (m : Assoc InflightEntry)
    → (is_empty p && is_empty m) ≡ true
    → (p ≡ []) × (m ≡ [])
both_empty [] [] h = (refl, refl)
both_empty [] (x ∷ m) h = absurd (cc h)
both_empty (x ∷ p) m h = absurd (cc h)

module _ (kv : KvStore) (wanted : List Hash256) where
  open kv use {State}

  -- The store holds the block of every id that is wanted.
  abbrev pub HasAll : Syncer State → Type 0
  HasAll s = (id : Hash256) → any_eq id wanted ≡ true → HasBlock kv s.chain_state id

  finished :
      (s : Syncer State)
      → (is_empty s.pending && is_empty s.inflight) ≡ true
      → IsPlaced kv wanted s
      → HasAll s
  finished s e v id h = go (v.placed id h)
    where
      go : Placed kv s.pending s.inflight s.chain_state id → HasBlock kv s.chain_state id
      go (queued q) = absurd (none_left id s.pending (both_empty s.pending s.inflight e).0 q)
      go (flying q) = absurd (none_flying id s.inflight (both_empty s.pending s.inflight e).1 q)
      go (stored q) = q

  module _ (laws : KvLaws kv) (fuel : ℕ) (b3 : Blake3)
      (order : Assoc InflightEntry → Assoc InflightEntry) where
    abbrev N : Syncer State → Type 0
    N = Nothing kv wanted

    abbrev pub To :
        {A : Type 0} → (Syncer State → Type 0) → (Syncer State → Type 0) → Syncing kv A → Type 0
    To I J m = Leads I J (Nothing kv wanted) m

    -- A round that goes on.
    round-IsPlaced :
        (c : Incoming) (next : Syncing kv (Unit {0}))
        → To (IsPlaced kv wanted) HasAll next
        → To (IsPlaced kv wanted) HasAll (blocks_incoming kv fuel b3 order c next)
    unfolding blocks_incoming
    round-IsPlaced (message msg) next k =
        Leads-then (IsPlaced kv wanted) (IsPlaced kv wanted) HasAll (Nothing kv wanted) _ _
          (on_block_message-Keeping kv wanted laws fuel b3 msg) k
    round-IsPlaced timeout next k =
        Leads-then (IsPlaced kv wanted) (IsPlaced kv wanted) HasAll (Nothing kv wanted) _ _
          (tick-Keeping kv wanted order) k
    round-IsPlaced closed next k = unfold fails in record { leads = λ s v. tt }
    round-IsPlaced (fault e) next k = unfold fails in record { leads = λ s v. tt }

    this_then :
        (f : Syncer State → Syncing kv (Unit {0})) (x : Syncer State)
        → Ensures (λ _. HasAll) (Nothing kv wanted) (f x x)
        → Ensures (λ _. HasAll) (Nothing kv wanted) ((this kv >>= f) x)
    unfolding this ◌>>=◌
    this_then f x h = h

    -- A round that the session does not end.
    abbrev going : Incoming → Syncing kv (Unit {0}) → Syncing kv (Unit {0})
    going c next = is_idle kv >>= λ idle.
        either idle (refuse_idle kv) (blocks_incoming kv fuel b3 order c next)

    is_idle-Keeping : Keeping kv wanted (is_idle kv)
    unfolding is_idle
    is_idle-Keeping = bind-Keeping kv wanted _ _ (now_at-Keeping kv wanted) λ now.
        bind-Keeping kv wanted _ _ (this-Keeping kv wanted)
          λ s. returns-Keeping kv wanted (ltb session_idle_timeout (now - s.last_progress))

    refuse_idle_leads : To (IsPlaced kv wanted) HasAll (refuse_idle kv)
    unfolding refuse_idle this refuse fails ◌>>=◌
    refuse_idle_leads = record { leads = λ s v. tt }

    going_leads :
        (c : Incoming) (next : Syncing kv (Unit {0}))
        → To (IsPlaced kv wanted) HasAll next
        → To (IsPlaced kv wanted) HasAll (going c next)
    going_leads c next h =
        Leads-bind (IsPlaced kv wanted) (IsPlaced kv wanted) HasAll (Nothing kv wanted) _ _
          is_idle-Keeping
          λ idle. record {
            leads = λ s v.
                either_split (Ensures (λ _. HasAll) (Nothing kv wanted)) idle (refuse_idle kv)
                  (blocks_incoming kv fuel b3 order c next) s (λ _. refuse_idle_leads.leads s v)
                  (λ _. (round-IsPlaced c next h).leads s v);
          }

    -- The end of the loop, or the next round.
    decide :
        (x : Syncer State) (m : Syncing kv (Unit {0}))
        → IsPlaced kv wanted x
        → To (IsPlaced kv wanted) HasAll m
        → Ensures
            (λ _. HasAll)
            (Nothing kv wanted)
            (either (is_empty x.pending && is_empty x.inflight) (returns kv tt) m x)
    decide x m w h =
        either_split (Ensures (λ _. HasAll) (Nothing kv wanted))
          (is_empty x.pending && is_empty x.inflight) _ m x (λ q. unfold returns in finished x q w)
          (λ _. h.leads x w)

    download_complete :
        (n : ℕ) (i : Input) → To (IsPlaced kv wanted) HasAll (download kv fuel b3 order n i)
    unfolding download
    download_complete zero i = record { leads = λ s v. tt }
    download_complete (suc n) i = record {
      leads = λ s v.
          Ensures-then (λ _. IsPlaced kv wanted) (Nothing kv wanted) (λ _. HasAll) (fill kv) _ s
            ((fill-Keeping kv wanted).leads s v)
            (λ a x w.
              this_then
                (λ y.
                  either (is_empty y.pending && is_empty y.inflight) (returns kv tt)
                    (going (incoming (recv i).0) (download kv fuel b3 order n (recv i).1)))
                x
                (decide x _ w
                  (going_leads (incoming (recv i).0) _ (download_complete n (recv i).1))));
    }

    validated : To HasAll HasAll (on_chain kv (validate_best_chain kv b3 fuel))
    unfolding on_chain
    validated = record {
      leads = λ s h.
          Ensures-both (λ _. HasAll) (Nothing kv wanted)
            (on_chain kv (validate_best_chain kv b3 fuel) s)
            (λ a id q.
              ((validate_best_chain-Keeps kv (Lasting kv) (Lasting-Lawful kv laws) b3 fuel).keeps
                  s.chain_state).0
                (k_block id) (h id q))
            tt;
    }

    -- What follows the headers phase.
    pub tail_leads :
        (n : ℕ) (left : Input)
        → To (Ready kv wanted) HasAll (
            queue_downloaded kv
            >> (progress kv
                >> (download kv fuel b3 order n left
                    >> on_chain kv (validate_best_chain kv b3 fuel))))
    tail_leads n left =
        Leads-then (Ready kv wanted) (IsPlaced kv wanted) HasAll N _ _
          (queue_downloaded-Leads kv wanted)
          (Leads-then (IsPlaced kv wanted) (IsPlaced kv wanted) HasAll N _ _
            (progress-Keeping kv wanted)
            (Leads-then (IsPlaced kv wanted) HasAll HasAll N _ _ (download_complete n left)
              validated))
