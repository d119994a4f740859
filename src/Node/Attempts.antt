-- ===== src/Node/Attempts.antt =====
-- How often each block was asked for, against the queue and the blocks in flight.
use egg_project.Prelude.{
  ℕ, ◌+◌, ◌≤◌, ◌<◌, ◌≡◌, sym, ap, ◌∙◌, subst, false, none, some, List, [], ◌∷◌, ◌++◌, length, All,
  bytes_eq, bytes_eq_iff, inl, inr, Option-cases, Bool-cases, arith, if◌then◌else◌,
}
use egg_project.Prelude.Assoc.{
  Assoc, lookup, insert, remove, lookup-insert, lookup-remove, length-insert_new,
}
use egg_project.Types.{Hash256}
use egg_project.Net.Message.{Message, get_block}
use egg_project.Node.Defs.{max_block_retries, block_window}
use egg_project.Node.Syncer.{InflightEntry}
use egg_project.Node.Download.{next_retries}
use egg_project.Node.Requests.{requests, requests-snoc}

-- No id stands twice.
abbrev pub Distinct : List Hash256 → Type 0
Distinct [] = Unit {0}
Distinct (id ∷ ids) = All (λ x. bytes_eq id x ≡ false) ids × Distinct ids

-- A block in flight was asked for once more than it was retried, a queued one not yet, and no block
-- more than three times.
pub record Attempts (sent : List Message) (pending : List Hash256) (inflight : Assoc InflightEntry)
    : Type 0 where
  pub bounded : (id : Hash256) → requests id sent ≤ 1 + max_block_retries
  pub counted :
      (id : Hash256) (e : InflightEntry)
      → lookup id inflight ≡ some e
      → (requests id sent ≡ e.retries + 1) × (e.retries ≤ max_block_retries)
  pub unasked : All (λ id. requests id sent ≡ 0) pending
  pub distinct : Distinct pending
  pub window : length inflight ≤ block_window

length-remove_le : (id : Hash256) (m : Assoc InflightEntry) → length (remove id m) ≤ length m
unfolding remove
length-remove_le id [] = omega arith
length-remove_le id ((j, v) ∷ m) = ground (arith, length-remove_le id m)

length-insert_old :
    (id : Hash256) (e e' : InflightEntry) (m : Assoc InflightEntry)
    → lookup id m ≡ some e'
    → length (insert id e m) ≡ length m
unfolding insert lookup
length-insert_old id e e' [] h = cc h
length-insert_old id e e' ((j, v) ∷ m) h = ground (arith, length-insert_old id e e' m)

-- A request for one block, counted for another.
requests_asked :
    (id x : Hash256) (sent : List Message)
    → requests x (sent ++ get_block id ∷ []) ≡ requests x sent + (if bytes_eq id x then 1 else 0)
requests_asked id x sent = requests-snoc x sent (get_block id)

requests_same :
    (id : Hash256) (sent : List Message)
    → requests id (sent ++ get_block id ∷ []) ≡ requests id sent + 1
requests_same id sent = ground (arith, requests_asked id id sent, bytes_eq_iff id id)

still_unasked :
    (id : Hash256) (sent : List Message) (xs : List Hash256)
    → All (λ x. bytes_eq id x ≡ false) xs
    → All (λ x. requests x sent ≡ 0) xs
    → All (λ x. requests x (sent ++ get_block id ∷ []) ≡ 0) xs
still_unasked id sent [] d u = tt
still_unasked id sent (x ∷ xs) d u =
    (ground (arith, requests_asked id x sent, d.0, u.0), still_unasked id sent xs d.1 u.1)

-- A block that was asked for is not queued.
asked-differs :
    (id : Hash256) (sent : List Message) (xs : List Hash256)
    → 0 < requests id sent
    → All (λ x. requests x sent ≡ 0) xs
    → All (λ x. bytes_eq id x ≡ false) xs
asked-differs id sent [] p u = tt
asked-differs id sent (x ∷ xs) p u = (head, asked-differs id sent xs p u.1)
  where
    head : bytes_eq id x ≡ false
    head = elim (Bool-cases (bytes_eq id x)) [
      | inl e ↦
          let same : id ≡ x = (bytes_eq_iff id x).0 e in
          absurd (omega (arith, p, u.0, ap (λ y. requests y sent) same))
      | inr e ↦ e
    ]

module _ (sent : List Message) (rest : List Hash256) (inflight : Assoc InflightEntry)
    (id : Hash256) where
  pub Attempts-skip : Attempts sent (id ∷ rest) inflight → Attempts sent rest inflight
  Attempts-skip a = record {
    bounded = a.bounded;
    counted = a.counted;
    unasked = a.unasked.1;
    distinct = a.distinct.1;
    window = a.window;
  }

  pub Attempts-drop : Attempts sent rest inflight → Attempts sent rest (remove id inflight)
  Attempts-drop a = record {
    bounded = a.bounded;
    counted = λ x e h. a.counted x e (ground (arith, h, lookup-remove id x inflight));
    unasked = a.unasked;
    distinct = a.distinct;
    window = omega (arith, a.window, length-remove_le id inflight);
  }

  not_inflight : Attempts sent (id ∷ rest) inflight → lookup id inflight ≡ none
  not_inflight a = elim (Option-cases (lookup id inflight)) [
    | inl e ↦ e
    | inr (e, q) ↦ absurd (omega (arith, (a.counted id e q).0, a.unasked.0))
  ]

  -- One more request for the block, with an entry that says so.
  module _ (pending : List Hash256) (a : Attempts sent pending inflight) (en : InflightEntry)
      (count : requests id sent ≡ en.retries) (few : en.retries ≤ max_block_retries) where
    more_bounded : (x : Hash256) → requests x (sent ++ get_block id ∷ []) ≤ 1 + max_block_retries
    more_bounded x = elim (Bool-cases (bytes_eq id x)) [
      | inl p ↦
          subst (λ y. requests y (sent ++ get_block id ∷ []) ≤ 1 + max_block_retries)
            ((bytes_eq_iff id x).0 p) (omega (arith, requests_same id sent, count, few))
      | inr p ↦ ground (arith, requests_asked id x sent, p, a.bounded x)
    ]

    more_counted :
        (x : Hash256) (e : InflightEntry)
        → lookup x (insert id en inflight) ≡ some e
        → (requests x (sent ++ get_block id ∷ []) ≡ e.retries + 1) × (e.retries ≤ max_block_retries)
    more_counted x e h = elim (Bool-cases (bytes_eq id x)) [
      | inl p ↦
          let new : lookup x (insert id en inflight) ≡ some en =
            lookup-insert id x en inflight ∙ rw p in
          let same : en ≡ e = cc (new, h) in
          subst
            (λ y.
              (requests y (sent ++ get_block id ∷ []) ≡ e.retries + 1)
              × (e.retries ≤ max_block_retries))
            ((bytes_eq_iff id x).0 p)
            (subst
              (λ c.
                (requests id (sent ++ get_block id ∷ []) ≡ c.retries + 1)
                × (c.retries ≤ max_block_retries))
              same (omega (arith, requests_same id sent, count), few))
      | inr p ↦
          let old : lookup x inflight ≡ some e = sym (lookup-insert id x en inflight ∙ rw p) ∙ h in
          let (n, r) = a.counted x e old in (ground (arith, requests_asked id x sent, p, n), r)
    ]

  pub Attempts-new :
      (now : ℕ)
      → Attempts sent (id ∷ rest) inflight
      → length inflight < block_window
      → Attempts
          (sent ++ get_block id ∷ [])
          rest
          (insert id (record { retries = 0; last_sent = now }) inflight)
  Attempts-new now a l = record {
    bounded =
        more_bounded (id ∷ rest) a (record { retries = 0; last_sent = now }) a.unasked.0
          (omega arith);
    counted =
        more_counted (id ∷ rest) a (record { retries = 0; last_sent = now }) a.unasked.0
          (omega arith);
    unasked = still_unasked id sent rest a.distinct.0 a.unasked.1;
    distinct = a.distinct.1;
    window = omega (
      arith,
      l,
      length-insert_new id (record { retries = 0; last_sent = now }) inflight (not_inflight a),
    );
  }

  pub Attempts-again :
      (now : ℕ) (e : InflightEntry)
      → Attempts sent rest inflight
      → lookup id inflight ≡ some e
      → e.retries < max_block_retries
      → Attempts
          (sent ++ get_block id ∷ [])
          rest
          (insert id (record { retries = next_retries e; last_sent = now }) inflight)
  Attempts-again now e a q l = record {
    bounded =
        more_bounded rest a (record { retries = next_retries e; last_sent = now })
          (omega (arith, (a.counted id e q).0, l)) (omega (arith, l));
    counted =
        more_counted rest a (record { retries = next_retries e; last_sent = now })
          (omega (arith, (a.counted id e q).0, l)) (omega (arith, l));
    unasked =
        still_unasked id sent rest
          (asked-differs id sent rest (omega (arith, (a.counted id e q).0)) a.unasked) a.unasked;
    distinct = a.distinct;
    window = omega (
      arith,
      a.window,
      length-insert_old id (record { retries = next_retries e; last_sent = now }) e inflight q,
    );
  }
