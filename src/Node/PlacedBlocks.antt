-- ===== src/Node/PlacedBlocks.antt =====
-- The message `BlockFound` and the place of each block.
use egg_project.Prelude.{
  List, ℕ, ◌≡◌, subst, true, not, Result, ok, err, map_err, bytes_eq, bytes_eq_iff, inl, inr, ◌⊎◌,
  arith,
}
use egg_project.Prelude.Assoc.{lookup, contains_key, remove}
use egg_project.Types.{Hash256, Block}
use egg_project.Exec.{◌>>=◌, ◌>>◌}
use egg_project.Exec.Rules.{Ensures, Ensures-both, Ensures-bind, Ensures-then, Ensures-and}
use egg_project.Kv.{KvStore, KvLaws}
use egg_project.Crypto.Hashing.{Blake3, hash_header, header_id}
use egg_project.Net.Message.{
  Message, hello, hello_ack, get_headers, headers, get_block, block_found, block_not_found, ping,
  pong,
}
use egg_project.Store.Keys.{k_block}
use egg_project.Store.Ops.{has_header, any_eq}
use egg_project.Chain.Defs.{ChainStateError, ChainState, Run}
use egg_project.Chain.Ingest.{ingest_block}
use egg_project.Chain.Lasting.{Lasting, ingest_block-Lasting}
use egg_project.Chain.Placed.{HasBlock, ingest_block_places}
use egg_project.Node.Defs.{
  chain, Breach, unexpected_found, found_without_header, found_other_header,
}
use egg_project.Node.Session.{either, deliver}
use egg_project.Node.Syncer.{Syncer, on_chain, asked, fails, modify, progress}
use egg_project.Node.Download.{refuse, take_block, on_found, match_block, on_block_message}
use egg_project.Node.FairSteps.{either_split}
use egg_project.Node.Placed.{
  removed_other, Placed, queued, flying, stored, IsPlaced, genesis_kept, Placed-map,
}
use egg_project.Node.PlacedSteps.{
  Nothing, Keeping, on_session-Keeping, refuse-Keeping, either-Keeping, then-Keeping,
  progress-Keeping, on_not_found-Keeping,
}

module _ (kv : KvStore) (wanted : List Hash256) where
  open kv use {State}

  -- A session that has the block of the id at hand, and has lost no other.
  record Missing (id : Hash256) (s : Syncer State) : Type 0 where
    genesis : HasBlock kv s.chain_state s.chain_state.meta.genesis_id
    others :
        (y : Hash256)
        → any_eq y wanted ≡ true
        → (id ≡ y) ⊎ Placed kv s.pending s.inflight s.chain_state y

  removed-Missing :
      (id : Hash256) (s : Syncer State)
      → IsPlaced kv wanted s
      → Missing id (record s { inflight = remove id s.inflight })
  removed-Missing id s v = record { genesis = v.genesis; others = λ y h. go y (v.placed y h) }
    where
      go :
          (y : Hash256)
          → Placed kv s.pending s.inflight s.chain_state y
          → (id ≡ y) ⊎ Placed kv s.pending (remove id s.inflight) s.chain_state y
      go y (queued e) = inr (queued e)
      go y (flying e) = elim (removed_other id y s.inflight e) [
        | inl p ↦ inl p
        | inr p ↦ inr (flying p)
      ]
      go y (stored e) = inr (stored e)

  arrived :
      (id : Hash256) (s : Syncer State) (x : ChainState State)
      → Missing id s
      → HasBlock kv x id
      → Lasting kv s.chain_state x
      → IsPlaced kv wanted (record s { chain_state = x })
  arrived id s x w h l = record {
    genesis = genesis_kept kv s.chain_state x l w.genesis;
    placed = λ y q. elim (w.others y q) [
      | inl p ↦ stored (subst (HasBlock kv x) p h)
      | inr p ↦
          Placed-map kv s.pending s.pending s.inflight s.inflight s.chain_state x y queued flying
            (λ e. stored (l.0 (k_block y) e)) p
    ];
  }

  -- A method of the chain state, by what it leaves.
  on_chain_leads :
      {A : Type 0} (P : ChainState State → Type 0) (T : Syncer State → Type 0) (m : Run kv A)
      (s : Syncer State)
      → Ensures (λ _ x. P x) (λ _. Unit {0}) (m s.chain_state)
      → ((x : ChainState State) → P x → T (record s { chain_state = x }))
      → Ensures (λ _. T) (Nothing kv wanted) (on_chain kv m s)
  unfolding on_chain
  on_chain_leads {A} P T m s h k = go (m s.chain_state) h
    where
      go :
          (p : Result ChainStateError A × ChainState State)
          → Ensures (λ _ x. P x) (λ _. Unit {0}) p
          → Ensures (λ _. T) (Nothing kv wanted) (map_err chain p.0, record s { chain_state = p.1 })
      go (ok a, x) h = k x h
      go (err e, x) h = tt

  module _ (laws : KvLaws kv) (fuel : ℕ) (b3 : Blake3) where
    ingested :
        (id : Hash256) (block : Block) (s : Syncer State)
        → bytes_eq (hash_header b3 block.header) id ≡ true
        → Missing id s
        → Ensures
            (λ _. IsPlaced kv wanted)
            (Nothing kv wanted)
            (on_chain kv (ingest_block kv fuel b3 block) s)
    ingested id block s e w =
        let same : header_id b3 block.header ≡ id =
          unfold header_id in (bytes_eq_iff (hash_header b3 block.header) id).0 e in
        on_chain_leads (λ x. HasBlock kv x (header_id b3 block.header) × Lasting kv s.chain_state x)
          (IsPlaced kv wanted) (ingest_block kv fuel b3 block) s
          (Ensures-and (λ _ x. HasBlock kv x (header_id b3 block.header)) (λ _. Unit {0})
            (Lasting kv s.chain_state) _
            (ingest_block_places kv laws fuel b3 block s.chain_state w.genesis)
            (ingest_block-Lasting kv laws fuel b3 block s.chain_state))
          λ x (h, l). arrived id s x w (subst (HasBlock kv x) same h) l

    refused :
        (b : Breach) (s : Syncer State)
        → Ensures (λ _. IsPlaced kv wanted) (Nothing kv wanted) (refuse kv {A = Unit {0}} b s)
    unfolding refuse fails
    refused b s = tt

    -- What follows the removal from the blocks in flight.
    checked-IsPlaced :
        (id : Hash256) (block : Block) (s : Syncer State)
        → Missing id s
        → Ensures
            (λ _. IsPlaced kv wanted)
            (Nothing kv wanted)
            ((asked kv (has_header kv id) >>= λ has_h.
                either (not has_h) (refuse kv (found_without_header id)) (
                  either
                    (not (bytes_eq (hash_header b3 block.header) id))
                    (refuse kv (found_other_header id (hash_header b3 block.header)))
                    (on_chain kv (ingest_block kv fuel b3 block) >> progress kv)))
              s)
    checked-IsPlaced id block s w =
        Ensures-bind (λ _. Missing id) (Nothing kv wanted) (λ _. IsPlaced kv wanted)
          (asked kv (has_header kv id)) _ s
          (unfold asked in
            Ensures-both (λ _. Missing id) (Nothing kv wanted) (asked kv (has_header kv id) s)
              (λ a. record { genesis = w.genesis; others = w.others }) tt)
          λ has_h x v.
            either_split (Ensures (λ _. IsPlaced kv wanted) (Nothing kv wanted)) (not has_h) _ _ x
              (λ _. refused (found_without_header id) x)
              λ _.
                either_split (Ensures (λ _. IsPlaced kv wanted) (Nothing kv wanted))
                  (not (bytes_eq (hash_header b3 block.header) id)) _ _ x
                  (λ _. refused (found_other_header id (hash_header b3 block.header)) x)
                  λ q.
                    Ensures-then (λ _. IsPlaced kv wanted) (Nothing kv wanted)
                      (λ _. IsPlaced kv wanted) (on_chain kv (ingest_block kv fuel b3 block))
                      (progress kv) x (ingested id block x (ground (arith, q)) v)
                      (λ a y. (progress-Keeping kv wanted).leads y)

    take_block-Keeping :
        (id : Hash256) (block : Block) → Keeping kv wanted (take_block kv fuel b3 id block)
    unfolding take_block modify ◌>>◌ ◌>>=◌
    take_block-Keeping id block = record {
      leads = λ s v.
          checked-IsPlaced id block (record s { inflight = remove id s.inflight })
            (removed-Missing id s v);
    }

    on_found-Keeping :
        (id : Hash256) (block : Block) → Keeping kv wanted (on_found kv fuel b3 id block)
    unfolding on_found
    on_found-Keeping id block = record {
      leads = λ s.
          (either-Keeping kv wanted (not (contains_key id s.inflight)) _ _
              (refuse-Keeping kv wanted (unexpected_found id)) (take_block-Keeping id block)).leads
            s;
    }

    match_block-Keeping : (msg : Message) → Keeping kv wanted (match_block kv fuel b3 msg)
    unfolding match_block
    match_block-Keeping (block_found id block) = record {
      leads = (on_found-Keeping id block).leads;
    }
    match_block-Keeping (block_not_found id) = record {
      leads = λ s. (on_not_found-Keeping kv wanted id (lookup id s.inflight)).leads s;
    }
    match_block-Keeping (hello g) = record { leads = λ s v. v }
    match_block-Keeping (hello_ack g) = record { leads = λ s v. v }
    match_block-Keeping (get_headers start max) = record { leads = λ s v. v }
    match_block-Keeping (headers hs) = record { leads = λ s v. v }
    match_block-Keeping (get_block id) = record { leads = λ s v. v }
    match_block-Keeping (ping nonce) = record { leads = λ s v. v }
    match_block-Keeping (pong nonce) = record { leads = λ s v. v }

    pub on_block_message-Keeping :
        (msg : Message) → Keeping kv wanted (on_block_message kv fuel b3 msg)
    unfolding on_block_message
    on_block_message-Keeping msg =
        then-Keeping kv wanted _ _ (on_session-Keeping kv wanted (deliver b3 msg))
          (match_block-Keeping msg)
