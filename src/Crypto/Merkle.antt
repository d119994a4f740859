-- ===== src/Crypto/Merkle.antt =====
-- EGG-Chain/crates/egg-crypto/src/merkle.rs
pub mod Binding
pub mod Doubled
use egg_project.Prelude.{
  ℕ, zero, suc, ◌+◌, ◌/◌, ◌<◌, ◌≤◌, ◌≡◌, refl, ap, ◌∙◌, ◌≢◌, Bool, true, false, List, [], ◌∷◌, ◌++◌,
  length, length-append, ltb, arith, if◌then◌else◌,
}
use egg_project.Bytes.{Bytes}
use egg_project.Types.{Hash256, zero_hash}
use egg_project.Crypto.Hashing.{Blake3, hash_domain, domain_merkle}

-- `layer[0]`; the loop hands over a layer that is not empty.
abbrev pub first : List Hash256 → Hash256
first [] = zero_hash
first (h ∷ hs) = h

module _ (b3 : Blake3) where
  unfoldable pub merkle_parent : Hash256 → Hash256 → Hash256
  merkle_parent left right = hash_domain b3 domain_merkle (left ++ right)

  -- `for pair in layer.chunks(2)`
  unfoldable pub next_layer : List Hash256 → List Hash256
  next_layer [] = []
  next_layer (l ∷ []) = merkle_parent l l ∷ []
  next_layer (l ∷ r ∷ rest) = merkle_parent l r ∷ next_layer rest

  -- `while layer.len() > 1`; the layer that the loop leaves. A layer is at most the half of the
  -- one before, rounded up, so as many rounds as there are leaves are enough.
  unfoldable pub merkle_loop : ℕ → List Hash256 → List Hash256
  merkle_loop zero layer = layer
  merkle_loop (suc fuel) layer = elim (ltb 1 (length layer)) [
    | true ↦ merkle_loop fuel (next_layer layer)
    | false ↦ layer
  ]

  unfoldable pub merkle_root_txids : List Hash256 → Hash256
  unfolding merkle_loop next_layer merkle_parent
  merkle_root_txids [] = zero_hash
  merkle_root_txids (t ∷ ts) = first (merkle_loop (length (t ∷ ts)) (t ∷ ts))

  pub length-next_layer :
      (layer : List Hash256) → length (next_layer layer) ≡ (length layer + 1) / 2
  unfolding next_layer
  length-next_layer [] = refl
  length-next_layer (l ∷ []) = refl
  length-next_layer (l ∷ r ∷ rest) = omega (arith, length-next_layer rest)

  -- The loop ends by its test, at a layer of one hash, when it starts with one leaf or more and as
  -- many rounds as leaves.
  pub length-merkle_loop :
      (fuel : ℕ) (layer : List Hash256)
      → 0 < length layer
      → length layer ≤ fuel
      → length (merkle_loop fuel layer) ≡ 1
  unfolding merkle_loop
  length-merkle_loop zero layer pos le = absurd (omega arith)
  length-merkle_loop (suc fuel) layer pos le =
      ground (arith, length-next_layer layer, length-merkle_loop fuel (next_layer layer))
