-- ===== src/Node/Queueing.antt =====
-- The queue that `run_syncer_once` builds, and the place of each block.
use egg_project.Prelude.{
  ◌≡◌, subst, Bool, true, List, [], ◌∷◌, ◌++◌, bytes_eq, bytes_eq_iff, Bool-cases, ◌⊎◌, inl, inr,
  arith,
}
use egg_project.Prelude.Assoc.{lookup, contains_key, insert, lookup-insert}
use egg_project.Types.{Hash256}
use egg_project.Exec.{◌>>=◌}
use egg_project.Exec.Rules.{Leads, Ensures, Ensures-bind, Ensures-then}
use egg_project.Kv.{KvStore}
use egg_project.Net.Peer.Defs.{IdSet}
use egg_project.Store.Ops.{has_block, any_eq}
use egg_project.Chain.Placed.{HasBlock}
use egg_project.Node.Session.{either}
use egg_project.Node.Syncer.{Syncer, asked, returns, modify, this}
use egg_project.Node.Download.{push_pending, queue_missing, queue_downloaded}
use egg_project.Node.FairSteps.{either_split}
use egg_project.Node.Placed.{
  any_eq-head, any_eq-left, any_eq-last, Placed, queued, flying, stored, IsPlaced, Placed-map,
}
use egg_project.Node.PlacedSteps.{Nothing}
use egg_project.Node.PlacedFill.{asked_found}

inserted_cases :
    (id y : Hash256) (seen : IdSet)
    → contains_key y (insert id tt seen) ≡ true
    → (id ≡ y) ⊎ (contains_key y seen ≡ true)
unfolding contains_key
inserted_cases id y seen h = elim (Bool-cases (bytes_eq id y)) [
  | inl e ↦ inl ((bytes_eq_iff id y).0 e)
  | inr e ↦ inr (ground (arith, lookup-insert id y tt seen, e, h))
]

no_entry : (y : Hash256) → contains_key y (let m : IdSet = [] in m) ≡ true → ⊥
unfolding contains_key lookup
no_entry y h = cc h

not_listed : (y : Hash256) → any_eq y [] ≡ true → ⊥
unfolding any_eq
not_listed y h = cc h

module _ (kv : KvStore) (wanted : List Hash256) where
  open kv use {State}

  abbrev At : Syncer State → Hash256 → Type 0
  At s y = Placed kv s.pending s.inflight s.chain_state y

  -- The ids that are still to be looked at, and those that were.
  record Queueing (ids : List Hash256) (seen : IdSet) (s : Syncer State) : Type 0 where
    genesis : HasBlock kv s.chain_state s.chain_state.meta.genesis_id
    still : (y : Hash256) → any_eq y wanted ≡ true → (any_eq y ids ≡ true) ⊎ At s y
    known : (y : Hash256) → contains_key y seen ≡ true → At s y

  -- One id is looked at, and its block is placed.
  advance :
      (id : Hash256) (ids : List Hash256) (seen : IdSet) (s : Syncer State) (p : List Hash256)
      → Queueing (id ∷ ids) seen s
      → ((y : Hash256) → At s y → At (record s { pending = p }) y)
      → At (record s { pending = p }) id
      → Queueing ids (insert id tt seen) (record s { pending = p })
  advance id ids seen s p q keep here = record {
    genesis = q.genesis;
    still = λ y h. elim (q.still y h) [
      | inl e ↦ elim (any_eq-head id y ids e) [
        | inl same ↦ inr (subst (At (record s { pending = p })) same here)
        | inr later ↦ inl later
      ]
      | inr a ↦ inr (keep y a)
    ];
    known = λ y h. elim (inserted_cases id y seen h) [
      | inl same ↦ subst (At (record s { pending = p })) same here
      | inr old ↦ keep y (q.known y old)
    ];
  }

  skip :
      (id : Hash256) (ids : List Hash256) (seen : IdSet) (s : Syncer State)
      → contains_key id seen ≡ true
      → Queueing (id ∷ ids) seen s
      → Queueing ids seen s
  skip id ids seen s h q = record {
    genesis = q.genesis;
    still = λ y d. elim (q.still y d) [
      | inl e ↦ elim (any_eq-head id y ids e) [
        | inl same ↦ inr (subst (At s) same (q.known id h))
        | inr later ↦ inl later
      ]
      | inr a ↦ inr a
    ];
    known = q.known;
  }

  queue_one :
      (id : Hash256) (ids : List Hash256) (seen : IdSet) (have : Bool) (s : Syncer State)
      → Queueing (id ∷ ids) seen s
      → (have ≡ true → HasBlock kv s.chain_state id)
      → Ensures
          (λ _. Queueing ids (insert id tt seen))
          (Nothing kv wanted)
          (either have (returns kv tt) (push_pending kv id) s)
  unfolding returns push_pending modify
  queue_one id ids seen have s q h =
      either_split (Ensures (λ _. Queueing ids (insert id tt seen)) (Nothing kv wanted)) have _ _ s
        (λ e. advance id ids seen s s.pending q (λ y a. a) (stored (h e)))
        (λ _.
          advance id ids seen s (s.pending ++ id ∷ []) q
            (λ y.
              Placed-map kv s.pending (s.pending ++ id ∷ []) s.inflight s.inflight s.chain_state
                s.chain_state y (λ e. queued (any_eq-left id y s.pending e)) flying stored)
            (queued (any_eq-last id s.pending)))

  queue_missing-IsPlaced :
      (ids : List Hash256) (seen : IdSet) (s : Syncer State)
      → Queueing ids seen s
      → Ensures (λ _. IsPlaced kv wanted) (Nothing kv wanted) (queue_missing kv ids seen s)
  unfolding queue_missing
  queue_missing-IsPlaced [] seen s q = record {
    genesis = q.genesis;
    placed = λ y h. elim (q.still y h) [ inl e ↦ absurd (not_listed y e) | inr a ↦ a ];
  }
  queue_missing-IsPlaced (id ∷ ids) seen s q =
      either_split (Ensures (λ _. IsPlaced kv wanted) (Nothing kv wanted)) (contains_key id seen) _
        _ s (λ h. queue_missing-IsPlaced ids seen s (skip id ids seen s h q))
        (λ _.
          Ensures-bind
            (λ b x. Queueing (id ∷ ids) seen x × (b ≡ true → HasBlock kv x.chain_state id))
            (Nothing kv wanted) (λ _. IsPlaced kv wanted) (asked kv (has_block kv id)) _ s
            (asked_found kv wanted id (Queueing (id ∷ ids) seen) s q)
            λ have x w.
              Ensures-then (λ _. Queueing ids (insert id tt seen)) (Nothing kv wanted)
                (λ _. IsPlaced kv wanted) (either have (returns kv tt) (push_pending kv id))
                (queue_missing kv ids (insert id tt seen)) x (queue_one id ids seen have x w.0 w.1)
                (λ a y. queue_missing-IsPlaced ids (insert id tt seen) y))

  -- The store holds the genesis block, and the ids that are wanted were downloaded.
  abbrev pub Ready : Syncer State → Type 0
  Ready s =
      HasBlock kv s.chain_state s.chain_state.meta.genesis_id
      × ((y : Hash256) → any_eq y wanted ≡ true → any_eq y s.downloaded_ids ≡ true)

  pub queue_downloaded-Leads :
      Leads Ready (IsPlaced kv wanted) (Nothing kv wanted) (queue_downloaded kv)
  unfolding queue_downloaded this ◌>>=◌
  queue_downloaded-Leads = record {
    leads = λ s g. queue_missing-IsPlaced s.downloaded_ids [] s (record {
      genesis = g.0;
      still = λ y h. inl (g.1 y h);
      known = λ y h. absurd (no_entry y h);
    });
  }
