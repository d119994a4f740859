-- ===== src/Crypto/Merkle/Doubled.antt =====
-- The odd leaf: a list of ids and the list in which its last id stands twice.
use egg_project.Prelude.{
  ℕ, zero, suc, ◌%◌, ◌≤◌, ◌≡◌, refl, sym, ap, ◌∙◌, List, [], ◌∷◌, ◌++◌, length, length-append,
  arith,
}
use egg_project.Types.{Hash256}
use egg_project.Crypto.Hashing.{Blake3}
use egg_project.Crypto.Merkle.{
  first, merkle_parent, next_layer, merkle_loop, merkle_root_txids, length-next_layer,
}

module _ (b3 : Blake3) where
  -- Rounds past the last one change nothing.
  merkle_loop_more :
      (fuel : ℕ) (l : List Hash256)
      → length l ≤ fuel
      → merkle_loop b3 (suc fuel) l ≡ merkle_loop b3 fuel l
  unfolding merkle_loop
  merkle_loop_more zero l h = ground arith
  merkle_loop_more (suc fuel) l h =
      ground (arith, length-next_layer b3 l, merkle_loop_more fuel (next_layer b3 l))

  next_layer_doubled :
      (xs : List Hash256) (t : Hash256)
      → length xs % 2 ≡ 0
      → next_layer b3 (xs ++ (t ∷ [])) ≡ next_layer b3 (xs ++ (t ∷ t ∷ []))
  unfolding next_layer
  next_layer_doubled [] t h = refl
  next_layer_doubled (x ∷ []) t h = absurd (omega arith)
  next_layer_doubled (x ∷ y ∷ xs) t h =
      ap (◌∷◌ (merkle_parent b3 x y)) (next_layer_doubled xs t (omega arith))

  root_by_next :
      (x y : Hash256) (ts : List Hash256) (fuel : ℕ)
      → fuel ≡ suc (suc (length ts))
      → merkle_root_txids b3 (x ∷ y ∷ ts) ≡ first (merkle_loop b3 fuel (next_layer b3 (x ∷ y ∷ ts)))
  unfolding merkle_root_txids
  root_by_next x y ts fuel e = rw e (
      ap first (sym (merkle_loop_more (suc (suc (length ts))) (x ∷ y ∷ ts) (omega arith)))
      ∙ unfold merkle_loop in ground arith)

  -- A list of an odd number of ids, three or more, has the Merkle root of the longer list in which
  -- the last id is repeated: the root does not determine the transactions of a block.
  pub merkle_root_txids_doubled :
      (x y : Hash256) (xs : List Hash256) (t : Hash256)
      → length xs % 2 ≡ 0
      → merkle_root_txids b3 (x ∷ y ∷ (xs ++ (t ∷ [])))
        ≡ merkle_root_txids b3 (x ∷ y ∷ (xs ++ (t ∷ t ∷ [])))
  merkle_root_txids_doubled x y xs t h =
      root_by_next x y one _ refl
      ∙ ap (λ l. first (merkle_loop b3 (suc (suc (length one))) l)) layers
      ∙ ap first (sym (merkle_loop_more _ _ small))
      ∙ sym (root_by_next x y two (suc (suc (suc (length one)))) (omega (arith, lengths)))
    where
      one : List Hash256
      one = xs ++ (t ∷ [])

      two : List Hash256
      two = xs ++ (t ∷ t ∷ [])

      layers : next_layer b3 (x ∷ y ∷ one) ≡ next_layer b3 (x ∷ y ∷ two)
      layers = unfold next_layer in ap (◌∷◌ (merkle_parent b3 x y)) (next_layer_doubled xs t h)

      lengths : length two ≡ suc (length one)
      lengths = omega (arith, length-append xs (t ∷ []), length-append xs (t ∷ t ∷ []))

      small : length (next_layer b3 (x ∷ y ∷ two)) ≤ suc (suc (length one))
      small = omega (arith, lengths, length-next_layer b3 (x ∷ y ∷ two))
