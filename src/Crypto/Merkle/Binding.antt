-- ===== src/Crypto/Merkle/Binding.antt =====
-- The Merkle root as a commitment: what two lists of transaction ids with one root have to do with
-- each other.
use egg_project.Prelude.{◌≡◌, ◌≢◌}
use egg_project.Bytes.{Bytes}
use egg_project.Crypto.Hashing.{Blake3}

-- Two different inputs of the hash function with one digest.
abbrev pub Collision : Blake3 → Type 0
Collision b3 = (x : Bytes) × (y : Bytes) × (x ≢ y) × (b3.digest x ≡ b3.digest y)
