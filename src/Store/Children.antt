-- ===== src/Store/Children.antt =====
-- The chain store refines its maps: the lists of children.
use egg_project.Prelude.{
  ◌^◌, ◌<◌, ◌≡◌, refl, sym, ap, ◌∙◌, List, [], ◌∷◌, ◌++◌, length, All, ok, bytes_eq, bytes_eq_iff,
  Bool-cases, All-append, if◌then◌else◌, inl, inr,
}
use egg_project.Types.{Hash256, IsHash}
use egg_project.Kv.{KvStore, KvLaws}
use egg_project.Store.Records.{encode_children, decode_children}
use egg_project.Store.RoundTrip.{decode_children-encode_children}
use egg_project.Store.Keys.{k_children}
use egg_project.Store.Ops.{put, add_child, push_child, any_eq, get_children}
use egg_project.Store.View.{ChainView, Implements, update}
use egg_project.Store.Frames.{has_by_get}
use egg_project.Store.Kept
use egg_project.Store.Refines.{here}

module _ (kv : KvStore) (laws : KvLaws kv) (s : kv.State) (v : ChainView)
    (i : Implements kv s v) where
  open kv use {State}

  -- The list of children that `add_child` leaves.
  abbrev pub with_child : Hash256 → List Hash256 → List Hash256
  with_child child cs = if any_eq child cs then cs else cs ++ (child ∷ [])

  found_children :
      (id : Hash256) (cs : List Hash256) (t : State)
      → kv.get t (k_children id) ≡ ok (encode_children cs)
      → decode_children (encode_children cs) ≡ ok cs
      → get_children kv id t ≡ ok cs
  unfolding get_children
  found_children id cs t e d = rw (has_by_get kv laws t (k_children id), e, d)

  child_added :
      (p c : Hash256)
      → IsHash c
      → All IsHash (v.children p)
      → length (v.children p ++ (c ∷ [])) < 2 ^ 32
      → Implements kv
          (put kv (k_children p) (encode_children (v.children p ++ (c ∷ []))) s).1
          (record v { children = update v.children p (v.children p ++ (c ∷ [])) })
  unfolding put bytes_eq
  child_added p c hc hs n =
      let k = k_children p in
      let cs = v.children p ++ (c ∷ []) in
      let b = encode_children cs in
      record {
        header_at = λ j. Kept.header_kept kv laws s v i k b j refl;
        has_header_at = λ j. Kept.has_header_kept kv laws s v i k b j refl;
        block_at = λ j. Kept.block_kept kv laws s v i k b j refl;
        has_block_at = λ j. Kept.has_block_kept kv laws s v i k b j refl;
        tip_at = Kept.tip_kept kv laws s v i k b refl;
        meta_at = Kept.meta_kept kv laws s v i k b refl;
        block_meta_at = λ j. Kept.block_meta_kept kv laws s v i k b j refl;
        children_at = λ j. elim (Bool-cases (bytes_eq p j)) [
          | inl e ↦ rw e (
              found_children j cs _ (here kv laws s v i k (k_children j) b e) (
                decode_children-encode_children cs
                  (All-append IsHash (v.children p) (c ∷ []) hs (hc, tt)) n))
          | inr e ↦ rw e (Kept.children_kept kv laws s v i k b j e)
        ];
        canon_at = λ j u. Kept.canon_kept kv laws s v i k b j u refl;
      }

  -- On a key-value store that keeps the laws, `add_child` puts the child at the end of its parent's
  -- list, unless the list has it already, and changes no other read, when the hashes are of the Rust
  -- type and the longer list has fewer than 2 ^ 32.
  pub add_child-Implements :
      (p c : Hash256)
      → IsHash c
      → All IsHash (v.children p)
      → length (v.children p ++ (c ∷ [])) < 2 ^ 32
      → Implements kv
          (add_child kv p c s).1
          (record v { children = update v.children p (with_child c (v.children p)) })
  unfolding add_child push_child
  add_child-Implements p c hc hs n = elim (Bool-cases (any_eq c (v.children p))) [
    | inl e ↦ rw (i.children_at p, add_child, e, push_child) unchanged
    | inr e ↦ rw (i.children_at p, add_child, e, push_child) (child_added p c hc hs n)
  ]
    where
      same : (j : Hash256) → update v.children p (v.children p) j ≡ v.children j
      same j = elim (Bool-cases (bytes_eq p j)) [
        | inl e ↦ rw e (ap v.children ((bytes_eq_iff p j).0 e))
        | inr e ↦ rw e
      ]

      unchanged : Implements kv s (record v { children = update v.children p (v.children p) })
      unchanged = record {
        header_at = i.header_at;
        has_header_at = i.has_header_at;
        block_at = i.block_at;
        has_block_at = i.has_block_at;
        tip_at = i.tip_at;
        meta_at = i.meta_at;
        block_meta_at = i.block_meta_at;
        children_at = λ j. i.children_at j ∙ ap ok (sym (same j));
        canon_at = i.canon_at;
      }
