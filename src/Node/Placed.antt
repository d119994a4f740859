-- ===== src/Node/Placed.antt =====
-- Where each downloaded header's block is: queued, in flight or in the store.
use egg_project.Prelude.{
  ◌≡◌, sym, ◌∙◌, subst, true, List, [], ◌∷◌, ◌++◌, bytes_eq, bytes_eq_iff, bytes_eq_refl,
  Bool-cases, ◌⊎◌, inl, inr, arith,
}
use egg_project.Prelude.Assoc.{Assoc, contains_key, insert, remove, lookup-insert, lookup-remove}
use egg_project.Types.{Hash256}
use egg_project.Kv.{KvStore}
use egg_project.Store.Keys.{k_block}
use egg_project.Store.Ops.{any_eq}
use egg_project.Chain.Defs.{ChainState}
use egg_project.Chain.Lasting.{Lasting}
use egg_project.Chain.Placed.{HasBlock}
use egg_project.Node.Syncer.{InflightEntry, Syncer}

pub any_eq-head :
    (id y : Hash256) (xs : List Hash256)
    → any_eq y (id ∷ xs) ≡ true
    → (id ≡ y) ⊎ (any_eq y xs ≡ true)
unfolding any_eq
any_eq-head id y xs h = elim (Bool-cases (bytes_eq id y)) [
  | inl e ↦ inl ((bytes_eq_iff id y).0 e)
  | inr e ↦ inr (sym (rw e) ∙ h)
]

pub any_eq_self : (id : Hash256) (xs : List Hash256) → any_eq id (id ∷ xs) ≡ true
unfolding any_eq
any_eq_self id xs = rw (bytes_eq_refl id)

pub any_eq-tail :
    (id y : Hash256) (xs : List Hash256) → any_eq y xs ≡ true → any_eq y (id ∷ xs) ≡ true
unfolding any_eq
any_eq-tail id y xs h = ground (arith, h)

pub any_eq-left :
    (id y : Hash256) (xs : List Hash256) → any_eq y xs ≡ true → any_eq y (xs ++ id ∷ []) ≡ true
unfolding any_eq
any_eq-left id y [] h = absurd (cc h)
any_eq-left id y (x ∷ xs) h = ground (arith, h, any_eq-left id y xs)

pub any_eq-last : (id : Hash256) (xs : List Hash256) → any_eq id (xs ++ id ∷ []) ≡ true
unfolding any_eq
any_eq-last id [] = rw (bytes_eq_refl id)
any_eq-last id (x ∷ xs) = ground (arith, any_eq-last id xs)

pub inserted_self :
    (id : Hash256) (e : InflightEntry) (m : Assoc InflightEntry)
    → contains_key id (insert id e m) ≡ true
unfolding contains_key
inserted_self id e m = ground (arith, lookup-insert id id e m, bytes_eq_iff id id)

pub inserted_other :
    (id y : Hash256) (e : InflightEntry) (m : Assoc InflightEntry)
    → contains_key y m ≡ true
    → contains_key y (insert id e m) ≡ true
unfolding contains_key
inserted_other id y e m h = ground (arith, lookup-insert id y e m, h)

pub removed_other :
    (id y : Hash256) (m : Assoc InflightEntry)
    → contains_key y m ≡ true
    → (id ≡ y) ⊎ (contains_key y (remove id m) ≡ true)
unfolding contains_key
removed_other id y m h = elim (Bool-cases (bytes_eq id y)) [
  | inl e ↦ inl ((bytes_eq_iff id y).0 e)
  | inr e ↦ inr (ground (arith, lookup-remove id y m, e, h))
]

module _ (kv : KvStore) where
  open kv use {State}

  pub data Placed (pending : List Hash256) (inflight : Assoc InflightEntry) (st : ChainState State)
      (id : Hash256) : Type 0 where
    queued : any_eq id pending ≡ true → Placed pending inflight st id
    flying : contains_key id inflight ≡ true → Placed pending inflight st id
    stored : HasBlock kv st id → Placed pending inflight st id

  -- Every id that is wanted has its block queued, in flight or in the store, which holds the genesis
  -- block.
  pub record IsPlaced (wanted : List Hash256) (s : Syncer State) : Type 0 where
    pub genesis : HasBlock kv s.chain_state s.chain_state.meta.genesis_id
    pub placed :
        (id : Hash256) → any_eq id wanted ≡ true → Placed s.pending s.inflight s.chain_state id

  -- A change that moves nothing but the chain state, which lasts.
  abbrev pub Calm : Syncer State → Syncer State → Type 0
  Calm s x =
      Lasting kv s.chain_state x.chain_state × (x.pending ≡ s.pending) × (x.inflight ≡ s.inflight)

  pub genesis_kept :
      (a b : ChainState State)
      → Lasting kv a b
      → HasBlock kv a a.meta.genesis_id
      → HasBlock kv b b.meta.genesis_id
  genesis_kept a b l g =
      subst (λ m. HasBlock kv b m.genesis_id) (sym l.1) (l.0 (k_block a.meta.genesis_id) g)

  pub Placed-map :
      (p q : List Hash256) (m n : Assoc InflightEntry) (a b : ChainState State) (id : Hash256)
      → (any_eq id p ≡ true → Placed q n b id)
      → (contains_key id m ≡ true → Placed q n b id)
      → (HasBlock kv a id → Placed q n b id)
      → Placed p m a id
      → Placed q n b id
  Placed-map p q m n a b id f g h (queued e) = f e
  Placed-map p q m n a b id f g h (flying e) = g e
  Placed-map p q m n a b id f g h (stored e) = h e

  pub IsPlaced-kept :
      (wanted : List Hash256) (s x : Syncer State)
      → Calm s x
      → IsPlaced wanted s
      → IsPlaced wanted x
  IsPlaced-kept wanted s x c v = record {
    genesis = genesis_kept s.chain_state x.chain_state c.0 v.genesis;
    placed = λ id h.
        Placed-map s.pending x.pending s.inflight x.inflight s.chain_state x.chain_state id
          (λ e. queued (subst (λ p. any_eq id p ≡ true) (sym c.1) e))
          (λ e. flying (subst (λ m. contains_key id m ≡ true) (sym c.2) e))
          (λ e. stored (c.0.0 (k_block id) e)) (v.placed id h);
  }
