-- ===== src/Miner/Search.antt =====
-- What the search for a nonce finds.
use egg_project.Prelude.{
  ℕ, zero, suc, ◌+◌, ◌%◌, ◌^◌, ◌<◌, ◌≡◌, sym, ap, ◌∙◌, ◌⊎◌, inl, inr, true, false, Bool-cases,
  Result-cases, subst, ok, err, arith,
}
use egg_project.Prelude.Words.{wrapping_add}
use egg_project.Types.{Block, IsU64}
use egg_project.Crypto.Hashing.{Blake3, pow_valid}
use egg_project.Miner.{
  MiningError, pow_not_found, default_max_nonce_tries, next_nonce, mine_loop, mine_block,
}

-- The block with another nonce.
abbrev pub with_nonce : ℕ → Block → Block
with_nonce n block = record block { header = record block.header { nonce = n } }

-- The block that the loop tries in round `i`.
abbrev pub tried : Block → ℕ → Block
tried block i = with_nonce ((block.header.nonce + i) % 2 ^ 64) block

tried_first : (b : Block) → IsU64 b.header.nonce → tried b 0 ≡ b
tried_first b v = ap (λ n. with_nonce n b) (same b.header.nonce v)
  where
    same : (n : ℕ) → n < 2 ^ 64 → (n + 0) % 2 ^ 64 ≡ n
    same n h = omega arith

tried_next : (b : Block) (i : ℕ) → tried (next_nonce b) i ≡ tried b (suc i)
unfolding next_nonce wrapping_add
tried_next b i = ap (λ n. with_nonce n b) (carried b.header.nonce i)
  where
    carried : (n j : ℕ) → ((n + 1) % 2 ^ 64 + j) % 2 ^ 64 ≡ (n + suc j) % 2 ^ 64
    carried n j = omega arith

next_nonce-IsU64 : (b : Block) → IsU64 (next_nonce b).header.nonce
unfolding next_nonce wrapping_add
next_nonce-IsU64 b = omega arith

module _ (b3 : Blake3) where
  abbrev pub FailsBefore : Block → ℕ → Type 0
  FailsBefore b i = (j : ℕ) → j < i → pow_valid b3 (tried b j).header ≡ false

  fails_later :
      (b : Block) (i : ℕ)
      → IsU64 b.header.nonce
      → pow_valid b3 b.header ≡ false
      → FailsBefore (next_nonce b) i
      → FailsBefore b (suc i)
  fails_later b i v e h zero lt = ap (λ c. pow_valid b3 c.header) (tried_first b v) ∙ e
  fails_later b i v e h (suc j) lt =
      ap (λ c. pow_valid b3 c.header) (sym (tried_next b j)) ∙ h j (omega arith)

  loop_stop :
      (left : ℕ) (b : Block) → pow_valid b3 b.header ≡ true → mine_loop b3 (suc left) b ≡ ok b
  unfolding mine_loop
  loop_stop left b e = rw (e, mine_loop)

  loop_next :
      (left : ℕ) (b : Block)
      → pow_valid b3 b.header ≡ false
      → mine_loop b3 (suc left) b ≡ mine_loop b3 left (next_nonce b)
  unfolding mine_loop
  loop_next left b e = rw (e, mine_loop)

  loop_found :
      (left : ℕ) (b c : Block)
      → IsU64 b.header.nonce
      → mine_loop b3 left b ≡ ok c
      → (i : ℕ) × (i < left) × (c ≡ tried b i) × (pow_valid b3 c.header ≡ true) × FailsBefore b i
  loop_found zero b c v h = unfold mine_loop in cc
  loop_found (suc left) b c v h =
      step (Bool-cases (pow_valid b3 b.header))
        (loop_found left (next_nonce b) c (next_nonce-IsU64 b))
    where
      step :
          (pow_valid b3 b.header ≡ true) ⊎ (pow_valid b3 b.header ≡ false)
          → (mine_loop b3 left (next_nonce b) ≡ ok c
              → (i : ℕ) × (i < left)
                × (c ≡ tried (next_nonce b) i)
                × (pow_valid b3 c.header ≡ true)
                × FailsBefore (next_nonce b) i)
          → (i : ℕ) × (i < suc left)
            × (c ≡ tried b i)
            × (pow_valid b3 c.header ≡ true)
            × FailsBefore b i
      step (inl e) ih =
          let same : b ≡ c = cc (loop_stop left b e) in
          (
            0,
            omega arith,
            sym same ∙ sym (tried_first b v),
            rw (← same) e,
            λ j lt. absurd (omega arith),
          )
      step (inr e) ih =
          let (i, lt, which, valid, before) = ih (sym (loop_next left b e) ∙ h) in
          (suc i, omega arith, which ∙ tried_next b i, valid, fails_later b i v e before)

  loop_failed :
      (left : ℕ) (b : Block) (x : MiningError)
      → IsU64 b.header.nonce
      → mine_loop b3 left b ≡ err x
      → (x ≡ pow_not_found default_max_nonce_tries) × FailsBefore b left
  loop_failed zero b x v h = (unfold mine_loop in cc, λ j lt. absurd (omega arith))
  loop_failed (suc left) b x v h =
      step (Bool-cases (pow_valid b3 b.header))
        (loop_failed left (next_nonce b) x (next_nonce-IsU64 b))
    where
      step :
          (pow_valid b3 b.header ≡ true) ⊎ (pow_valid b3 b.header ≡ false)
          → (mine_loop b3 left (next_nonce b) ≡ err x
              → (x ≡ pow_not_found default_max_nonce_tries) × FailsBefore (next_nonce b) left)
          → (x ≡ pow_not_found default_max_nonce_tries) × FailsBefore b (suc left)
      step (inl e) ih = absurd (cc (loop_stop left b e))
      step (inr e) ih =
          let (which, before) = ih (sym (loop_next left b e) ∙ h) in
          (which, fails_later b left v e before)

  -- When `mine_block` succeeds it returns the block with the first nonce, counted from the one it
  -- was given and around 2 ^ 64, that has a valid proof of work; fewer than 50,000,000 were passed
  -- over, and nothing but the nonce is changed.
  pub mine_block_found :
      (b c : Block)
      → IsU64 b.header.nonce
      → mine_block b3 b ≡ ok c
      → (i : ℕ) × (i < default_max_nonce_tries)
        × (c ≡ tried b i)
        × (pow_valid b3 c.header ≡ true)
        × FailsBefore b i
  unfolding mine_block
  mine_block_found b c v h = loop_found default_max_nonce_tries b c v h

  -- When `mine_block` fails, the error is `PowNotFound`, and none of the 50,000,000 nonces from the
  -- given one on has a valid proof of work.
  pub mine_block_failed :
      (b : Block) (x : MiningError)
      → IsU64 b.header.nonce
      → mine_block b3 b ≡ err x
      → (x ≡ pow_not_found default_max_nonce_tries) × FailsBefore b default_max_nonce_tries
  unfolding mine_block
  mine_block_failed b x v h = loop_failed default_max_nonce_tries b x v h

  -- `mine_block` tries the nonces from the given one on, around 2 ^ 64: it returns the block with
  -- the first that has a valid proof of work, nothing but the nonce changed, if it is one of the
  -- first 50,000,000, and otherwise fails with `PowNotFound`, none of them being valid.
  pub mine_block_result :
      (b : Block)
      → IsU64 b.header.nonce
      → ((i : ℕ) × (i < default_max_nonce_tries)
          × (mine_block b3 b ≡ ok (tried b i))
          × (pow_valid b3 (tried b i).header ≡ true)
          × FailsBefore b i)
        ⊎ ((mine_block b3 b ≡ err (pow_not_found default_max_nonce_tries))
            × FailsBefore b default_max_nonce_tries)
  mine_block_result b v = elim (Result-cases (mine_block b3 b)) [
    | inl (c, e) ↦
        let (i, l, q, p, f) = mine_block_found b c v e in
        inl (i, l, e ∙ ap ok q, subst (λ x. pow_valid b3 x.header ≡ true) q p, f)
    | inr (x, e) ↦ let (q, f) = mine_block_failed b x v e in inr (e ∙ ap err q, f)
  ]
