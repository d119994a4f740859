-- ===== src/Chain/Verified.antt =====
-- `verify_genesis_matches_spec` on a store that holds the genesis block of the specification.
use egg_project.Prelude.{◌≡◌, refl, ◌∙◌, true, ok, bytes_eq_refl, ==_iff}
use egg_project.Prelude.Int.{ℤ, pos, negsuc}
use egg_project.Types.{BlockHeader}
use egg_project.Kv.{KvStore}
use egg_project.Exec.{◌>>=◌}
use egg_project.Genesis.{genesis_fields, genesis_header, validate_chainspec}
use egg_project.Store.Ops.{get_header}
use egg_project.Store.View.{Implements}
use egg_project.Chain.Defs.{ChainState, int_eq, header_eq, asks, given, branch, returns, self}
use egg_project.Chain.Queries.{verify_genesis_matches_spec}
use egg_project.Chain.Fresh.{genesis_view}

int_eq_refl : (v : ℤ) → int_eq v v ≡ true
unfolding int_eq
int_eq_refl (pos n) = (==_iff n n).1 refl
int_eq_refl (negsuc n) = (==_iff n n).1 refl

header_eq_refl : (h : BlockHeader) → header_eq h h ≡ true
unfolding header_eq
header_eq_refl h = rw (
  bytes_eq_refl h.parent,
  (==_iff h.height h.height).1 refl,
  int_eq_refl h.timestamp_utc,
  (==_iff h.nonce h.nonce).1 refl,
  bytes_eq_refl h.merkle_root,
  (==_iff h.pow_difficulty_bits h.pow_difficulty_bits).1 refl,
)

module _ (kv : KvStore) (st : ChainState kv.State) where
  header_found :
      Implements kv st.store (genesis_view st.meta (genesis_fields st.spec))
      → get_header kv st.meta.genesis_id st.store ≡ ok (genesis_fields st.spec)
  header_found i = i.header_at st.meta.genesis_id ∙ rw (bytes_eq_refl st.meta.genesis_id)

  pub verified :
      validate_chainspec st.spec ≡ ok tt
      → Implements kv st.store (genesis_view st.meta (genesis_fields st.spec))
      → verify_genesis_matches_spec kv st ≡ (ok tt, st)
  unfolding verify_genesis_matches_spec genesis_header self given asks branch returns ◌>>=◌
  verified v i = rw (v, header_found i, header_eq_refl (genesis_fields st.spec))
