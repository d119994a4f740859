-- ===== src/Node/PlacedFill.antt =====
-- The window of requests and the place of each block.
use egg_project.Prelude.{
  ℕ, ◌≡◌, refl, sym, ap, ◌∙◌, subst, true, List, [], ◌∷◌, length, Result-cases, ok, ltb, inl, inr,
}
use egg_project.Prelude.Assoc.{contains_key, insert}
use egg_project.Types.{Hash256}
use egg_project.Exec.{◌>>=◌, ◌>>◌}
use egg_project.Exec.Rules.{Ensures, Ensures-both, Ensures-bind, Ensures-then}
use egg_project.Kv.{KvStore}
use egg_project.Store.Keys.{k_block}
use egg_project.Store.Ops.{has_block, any_eq}
use egg_project.Chain.Placed.{HasBlock}
use egg_project.Node.Defs.{block_window}
use egg_project.Node.Session.{either, ask_block}
use egg_project.Node.Syncer.{InflightEntry, Syncer, on_session, asked, modify}
use egg_project.Node.Download.{fill_window, request_new, track, fill}
use egg_project.Node.FairSteps.{either_split}
use egg_project.Node.Placed.{
  any_eq-head, inserted_self, inserted_other, Placed, queued, flying, stored, IsPlaced, Placed-map,
}
use egg_project.Node.PlacedSteps.{Nothing, Keeping, bind-Keeping, now_at-Keeping}

module _ (kv : KvStore) (wanted : List Hash256) where
  open kv use {State}

  -- A session that has taken the id from its queue.
  record Holding (id : Hash256) (rest : List Hash256) (s : Syncer State) : Type 0 where
    queue : s.pending ≡ rest
    genesis : HasBlock kv s.chain_state s.chain_state.meta.genesis_id
    held : (y : Hash256) → any_eq y wanted ≡ true → Placed kv (id ∷ rest) s.inflight s.chain_state y

  abbrev Filled : List Hash256 → Syncer State → Type 0
  Filled rest s = (s.pending ≡ rest) × IsPlaced kv wanted s

  -- The id is in the store.
  dropped :
      (id : Hash256) (rest : List Hash256) (s : Syncer State)
      → Holding id rest s
      → HasBlock kv s.chain_state id
      → IsPlaced kv wanted s
  dropped id rest s w h = record {
    genesis = w.genesis;
    placed = λ y q.
        Placed-map kv (id ∷ rest) s.pending s.inflight s.inflight s.chain_state s.chain_state y
          (λ e. elim (any_eq-head id y rest e) [
            | inl p ↦ stored (subst (HasBlock kv s.chain_state) p h)
            | inr p ↦ queued (subst (λ l. any_eq y l ≡ true) (sym w.queue) p)
          ])
          flying stored (w.held y q);
  }

  request_new_placed :
      (now : ℕ) (id : Hash256) (rest : List Hash256) (s : Syncer State)
      → Holding id rest s
      → Ensures (λ _. Filled rest) (Nothing kv wanted) (request_new kv now id s)
  unfolding request_new track modify
  request_new_placed now id rest s w =
      Ensures-then (λ _. Holding id rest) (Nothing kv wanted) (λ _. Filled rest)
        (on_session kv (ask_block id)) (track kv id 0 now) s
        (unfold on_session in
          Ensures-both (λ _. Holding id rest) (Nothing kv wanted) (on_session kv (ask_block id) s)
            (λ a. record { queue = w.queue; genesis = w.genesis; held = w.held }) tt)
        λ a x v.
          let en : InflightEntry = record { retries = 0; last_sent = now } in
          (
            v.queue,
            record {
              genesis = v.genesis;
              placed = λ y q.
                  Placed-map kv (id ∷ rest) x.pending x.inflight (insert id en x.inflight)
                    x.chain_state x.chain_state y
                    (λ e. elim (any_eq-head id y rest e) [
                      | inl p ↦ flying (
                          subst (λ z. contains_key z (insert id en x.inflight) ≡ true) p
                            (inserted_self id en x.inflight))
                      | inr p ↦ queued (subst (λ l. any_eq y l ≡ true) (sym v.queue) p)
                    ])
                    (λ e. flying (inserted_other id y en x.inflight e)) stored (v.held y q);
            },
          )

  -- What the store answers of a block.
  pub asked_found :
      (id : Hash256) (P : Syncer State → Type 0) (s : Syncer State)
      → P s
      → Ensures
          (λ b x. P x × (b ≡ true → HasBlock kv x.chain_state id))
          (Nothing kv wanted)
          (asked kv (has_block kv id) s)
  unfolding asked has_block
  asked_found id P s h = elim (Result-cases (kv.has s.chain_state.store (k_block id))) [
    | inl (b, q) ↦ rw q (h, λ e. q ∙ ap (λ c. ok c) e)
    | inr (e, q) ↦ rw q tt
  ]

  -- The head of the queue, in the store or requested.
  head-IsPlaced :
      (now : ℕ) (id : Hash256) (rest : List Hash256) (s : Syncer State)
      → ((x : Syncer State)
          → x.pending ≡ rest
          → IsPlaced kv wanted x
          → Ensures (λ _. IsPlaced kv wanted) (Nothing kv wanted) (fill_window kv now rest x))
      → Holding id rest s
      → Ensures
          (λ _. IsPlaced kv wanted)
          (Nothing kv wanted)
          ((asked kv (has_block kv id) >>= λ have.
              either have
                (fill_window kv now rest)
                (request_new kv now id >> fill_window kv now rest))
            s)
  head-IsPlaced now id rest s next w =
      Ensures-bind (λ b x. Holding id rest x × (b ≡ true → HasBlock kv x.chain_state id))
        (Nothing kv wanted) (λ _. IsPlaced kv wanted) (asked kv (has_block kv id)) _ s
        (asked_found id (Holding id rest) s w)
        λ have x u.
          either_split (Ensures (λ _. IsPlaced kv wanted) (Nothing kv wanted)) have _ _ x
            (λ q. next x u.0.queue (dropped id rest x u.0 (u.1 q)))
            (λ _.
              Ensures-then (λ _. Filled rest) (Nothing kv wanted) (λ _. IsPlaced kv wanted)
                (request_new kv now id) (fill_window kv now rest) x
                (request_new_placed now id rest x u.0) (λ a y f. next y f.0 f.1))

  fill_window-IsPlaced :
      (now : ℕ) (ids : List Hash256) (s : Syncer State)
      → s.pending ≡ ids
      → IsPlaced kv wanted s
      → Ensures (λ _. IsPlaced kv wanted) (Nothing kv wanted) (fill_window kv now ids s)
  unfolding fill_window modify ◌>>◌ ◌>>=◌
  fill_window-IsPlaced now [] s p v = v
  fill_window-IsPlaced now (id ∷ rest) s p v =
      either_split (Ensures (λ _. IsPlaced kv wanted) (Nothing kv wanted))
        (ltb (length s.inflight) block_window) _ _ s
        (λ q.
          head-IsPlaced now id rest (record s { pending = rest }) (fill_window-IsPlaced now rest)
            (record {
              queue = refl;
              genesis = v.genesis;
              held = λ y h. subst (λ l. Placed kv l s.inflight s.chain_state y) p (v.placed y h);
            }))
        (λ q. v)

  pub fill-Keeping : Keeping kv wanted (fill kv)
  unfolding fill
  fill-Keeping =
      bind-Keeping kv wanted _ _ (now_at-Keeping kv wanted)
        λ now. record { leads = λ s v. fill_window-IsPlaced now s.pending s refl v }
