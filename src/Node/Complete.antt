-- ===== src/Node/Complete.antt =====
-- A session of `run_syncer_once` from its start to its end.
use egg_project.Prelude.{ℕ, ◌≡◌, refl, sym, subst, true, List, [], ◌∷◌, ◌++◌, Result, ok, err, All}
use egg_project.Prelude.Assoc.{Assoc}
use egg_project.Types.{Hash256, BlockHeader}
use egg_project.Exec.Rules.{Ensures, Ensures-and, Leads, Leads-bind, Leads-then}
use egg_project.Kv.{KvStore, KvLaws}
use egg_project.Crypto.Hashing.{Blake3, hash_header}
use egg_project.Store.Ops.{any_eq}
use egg_project.Chain.Placed.{HasBlock}
use egg_project.Node.Defs.{NodeError, Input}
use egg_project.Node.Session.{greet}
use egg_project.Node.Syncer.{InflightEntry, Syncer, Syncing}
use egg_project.Node.Download.{sync}
use egg_project.Node.Placed.{any_eq_self, any_eq-tail, genesis_kept}
use egg_project.Node.Headers.{Safe, session-Safe, progress-Safe, sync_headers-Safe}
use egg_project.Node.HeadersAdded.{sync_headers-Adds}
use egg_project.Node.Received.{received, header_ids, Adds, session-Adds, progress-Adds}
use egg_project.Node.Finished.{HasAll, tail_leads}

any_eq-right :
    (y : Hash256) (xs ys : List Hash256) → any_eq y ys ≡ true → any_eq y (xs ++ ys) ≡ true
any_eq-right y [] ys h = h
any_eq-right y (x ∷ xs) ys h = any_eq-tail x y (xs ++ ys) (any_eq-right y xs ys h)

module _ (kv : KvStore) where
  open kv use {State}

  -- A session with these downloaded ids, on a store that holds the genesis block.
  abbrev Begun : List Hash256 → Syncer State → Type 0
  Begun ids s = (s.downloaded_ids ≡ ids) × HasBlock kv s.chain_state s.chain_state.meta.genesis_id

  abbrev Free : Syncer State → Type 0
  Free s = Unit {0}

  Begun-Leads :
      {A : Type 0} (new ids : List Hash256) (m : Syncing kv A)
      → Safe kv m
      → Adds kv new m
      → Leads (Begun ids) (Begun (ids ++ new)) Free m
  Begun-Leads new ids m h a = record {
    leads = λ s (e, g).
        Ensures-and (λ _ x. x.downloaded_ids ≡ ids ++ new) Free
          (λ x. HasBlock kv x.chain_state x.chain_state.meta.genesis_id) (m s) ((a ids).leads s e)
          (genesis_kept kv s.chain_state (m s).1.chain_state (h.keeps s) g);
  }

  module _ (laws : KvLaws kv) (fuel : ℕ) (b3 : Blake3)
      (order : Assoc InflightEntry → Assoc InflightEntry) where
    module _ (n : ℕ) (i : Input) where
      abbrev wanted : List Hash256
      wanted = header_ids b3 (received n i)

      sync-Leads :
          (ids : List Hash256)
          → Leads (Begun ids) (HasAll kv wanted) Free (sync kv fuel b3 order n i)
      unfolding sync
      sync-Leads ids =
          Leads-then _ _ _ Free _ _
            (Begun-Leads [] ids _ (session-Safe kv greet) (session-Adds kv greet))
            (Leads-then _ _ _ Free _ _
              (Begun-Leads [] (ids ++ []) _ (progress-Safe kv) (progress-Adds kv))
              (Leads-bind _ _ _ Free _ _
                (Begun-Leads wanted ((ids ++ []) ++ []) _ (sync_headers-Safe kv laws b3 n i)
                  (sync_headers-Adds kv b3 n i))
                λ left. record {
                  leads = λ s (e, g). (tail_leads kv wanted laws fuel b3 order n left).leads s (
                    g,
                    λ y h.
                        subst (λ l. any_eq y l ≡ true) (sym e)
                          (any_eq-right y ((ids ++ []) ++ []) wanted h),
                  );
                }))

    stored-All :
        (s : Syncer State) (hs : List BlockHeader)
        → HasAll kv (header_ids b3 hs) s
        → All (λ h. HasBlock kv s.chain_state (hash_header b3 h)) hs
    stored-All s [] a = tt
    stored-All s (h ∷ hs) a = (
      a (hash_header b3 h) (any_eq_self (hash_header b3 h) (header_ids b3 hs)),
      stored-All s hs (λ id e. a id (any_eq-tail (hash_header b3 h) id (header_ids b3 hs) e)),
    )

    -- On a store that keeps the laws and holds the genesis block: a session of `run_syncer_once` that
    -- succeeds leaves in the store the block of every header in the `Headers` messages that the peer
    -- sent before its first empty one, as read off the input.
    pub sync_complete :
        (n : ℕ) (i : Input) (s : Syncer State)
        → HasBlock kv s.chain_state s.chain_state.meta.genesis_id
        → (sync kv fuel b3 order n i s).0 ≡ ok tt
        → All
            (λ h. HasBlock kv (sync kv fuel b3 order n i s).1.chain_state (hash_header b3 h))
            (received n i)
    sync_complete n i s g e =
        stored-All (sync kv fuel b3 order n i s).1 (received n i)
          (go (sync kv fuel b3 order n i s) e ((sync-Leads n i s.downloaded_ids).leads s (refl, g)))
      where
        go :
            (p : Result NodeError (Unit {0}) × Syncer State)
            → p.0 ≡ ok tt
            → Ensures (λ _. HasAll kv (header_ids b3 (received n i))) (λ _. Unit {0}) p
            → HasAll kv (header_ids b3 (received n i)) p.1
        go (ok a, x) e h = h
        go (err k, x) e h = absurd (cc e)
