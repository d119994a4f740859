-- ===== src/Store/Keys.antt =====
-- The keys of the chain store, one family for each kind of record.
use egg_project.Prelude.{[], ◌∷◌}
use egg_project.Bytes.{Bytes, to_be_bytes}
use egg_project.Types.{Hash256, Height}

abbrev pub k_header : Hash256 → Bytes
k_header id = b'h' ∷ b'd' ∷ b'r' ∷ b':' ∷ id

abbrev pub k_block : Hash256 → Bytes
k_block id = b'b' ∷ b'l' ∷ b'k' ∷ b':' ∷ id

abbrev pub k_tip : Bytes
k_tip = b't' ∷ b'i' ∷ b'p' ∷ b':' ∷ []

abbrev pub k_meta : Bytes
k_meta = b'm' ∷ b'e' ∷ b't' ∷ b'a' ∷ b':' ∷ []

abbrev pub k_block_meta : Hash256 → Bytes
k_block_meta id = b'b' ∷ b'm' ∷ b'e' ∷ b't' ∷ b'a' ∷ b':' ∷ id

abbrev pub k_children : Hash256 → Bytes
k_children parent = b'c' ∷ b'h' ∷ b'i' ∷ b'l' ∷ b'd' ∷ b':' ∷ parent

abbrev pub k_canon : Height → Bytes
k_canon height = b'c' ∷ b'a' ∷ b'n' ∷ b'o' ∷ b'n' ∷ b':' ∷ to_be_bytes 8 height
