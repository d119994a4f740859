-- ===== src/Store/RoundTrip.antt =====
-- Each record of the chain store is read back from its bytes.
use egg_project.Prelude.{
  ℕ, zero, suc, ◌+◌, ◌*◌, ◌^◌, ◌<◌, ◌≡◌, refl, sym, ap, ap₂, ◌∙◌, true, false, List, [], ◌∷◌, ◌++◌,
  append-nil, length, length-append, take, drop, All, take_append_length, ok, ltb, ◌==◌, bytes_eq,
  arith,
}
use native.Mathlib.Nat.{suc-add}
use egg_project.Bytes.{
  Bytes, to_be_bytes, from_be_bytes, length-to_be_bytes, from_be_bytes-to_be_bytes,
}
use egg_project.Types.{Hash256, IsHash, IsU32, IsU64}
use egg_project.Canonical.Base.{saturate_u32_fits}
use egg_project.Store.Records.{
  ChainTip, ChainMeta, BlockMeta, encode_tip, decode_tip, encode_meta, decode_meta,
  encode_block_meta, decode_block_meta, concat, encode_children, hashes, decode_children,
  encode_canon, decode_canon, magic_tip, magic_met, magic_bm, magic_ch, magic_ca,
}

take_len : (n : ℕ) (xs ys : Bytes) → length xs ≡ n → take n (xs ++ ys) ≡ xs
take_len n xs ys h = rw (← h) (take_append_length xs ys)

take_all : (n : ℕ) (xs : Bytes) → length xs ≡ n → take n xs ≡ xs
take_all n xs h = ap (take n) (sym (append-nil xs)) ∙ take_len n xs [] h

drop_len : (m n : ℕ) (xs ys : Bytes) → length xs ≡ n → drop (n + m) (xs ++ ys) ≡ drop m ys
drop_len m n [] ys h = ap (λ k. drop k ys) (omega arith)
drop_len m zero (x ∷ xs) ys h = absurd (omega arith)
drop_len m (suc n) (x ∷ xs) ys h =
    ap (λ k. drop k (x ∷ (xs ++ ys))) (suc-add n m) ∙ drop_len m n xs ys (omega arith)

tip_bytes :
    (hs xs : Bytes)
    → length hs ≡ 8
    → length xs ≡ 32
    → decode_tip (magic_tip ++ (hs ++ xs)) ≡ ok (record { height = from_be_bytes hs; hash = xs })
unfolding decode_tip bytes_eq
tip_bytes hs xs h k =
    let long : ltb (length (magic_tip ++ (hs ++ xs))) 48 ≡ false =
      ground (arith, length-append hs xs) in
    rw (long, take_len 8 hs xs h, drop_len 0 8 hs xs h, take_all 32 xs k)

-- `decode_tip` returns the tip that `encode_tip` wrote.
pub decode_tip-encode_tip :
    (t : ChainTip) → IsU64 t.height → IsHash t.hash → decode_tip (encode_tip t) ≡ ok t
unfolding encode_tip
decode_tip-encode_tip t v h =
    tip_bytes (to_be_bytes 8 t.height) t.hash (length-to_be_bytes 8 t.height) h.len
    ∙ ap (λ n. ok (record t { height = n })) (from_be_bytes-to_be_bytes 8 t.height v)

meta_bytes :
    (cs gs hs : Bytes)
    → length cs ≡ 4
    → length gs ≡ 32
    → length hs ≡ 32
    → decode_meta (magic_met ++ (cs ++ (gs ++ hs)))
      ≡ ok (record { chain_id = from_be_bytes cs; genesis_id = gs; chainspec_hash = hs })
unfolding decode_meta bytes_eq
meta_bytes cs gs hs h k l =
    let long : ltb (length (magic_met ++ (cs ++ (gs ++ hs)))) 76 ≡ false =
      ground (arith, length-append cs (gs ++ hs), length-append gs hs) in
    rw (
      long,
      take_len 4 cs (gs ++ hs) h,
      drop_len 0 4 cs (gs ++ hs) h,
      drop_len 32 4 cs (gs ++ hs) h,
      take_len 32 gs hs k,
      drop_len 0 32 gs hs k,
      take_all 32 hs l,
    )

-- `decode_meta` returns the chain meta that `encode_meta` wrote.
pub decode_meta-encode_meta :
    (m : ChainMeta)
    → IsU32 m.chain_id
    → IsHash m.genesis_id
    → IsHash m.chainspec_hash
    → decode_meta (encode_meta m) ≡ ok m
unfolding encode_meta
decode_meta-encode_meta m v g h =
    meta_bytes (to_be_bytes 4 m.chain_id) m.genesis_id m.chainspec_hash
      (length-to_be_bytes 4 m.chain_id) g.len h.len
    ∙ ap (λ n. ok (record m { chain_id = n })) (from_be_bytes-to_be_bytes 4 m.chain_id v)

block_meta_bytes :
    (ps hs : Bytes)
    → length ps ≡ 32
    → length hs ≡ 8
    → decode_block_meta (magic_bm ++ (ps ++ hs))
      ≡ ok (record { parent = ps; height = from_be_bytes hs })
unfolding decode_block_meta bytes_eq
block_meta_bytes ps hs h k =
    let long : ltb (length (magic_bm ++ (ps ++ hs))) 48 ≡ false =
      ground (arith, length-append ps hs) in
    rw (long, take_len 32 ps hs h, drop_len 0 32 ps hs h, take_all 8 hs k)

-- `decode_block_meta` returns the block meta that `encode_block_meta` wrote.
pub decode_block_meta-encode_block_meta :
    (m : BlockMeta)
    → IsHash m.parent
    → IsU64 m.height
    → decode_block_meta (encode_block_meta m) ≡ ok m
unfolding encode_block_meta
decode_block_meta-encode_block_meta m p v =
    block_meta_bytes m.parent (to_be_bytes 8 m.height) p.len (length-to_be_bytes 8 m.height)
    ∙ ap (λ n. ok (record m { height = n })) (from_be_bytes-to_be_bytes 8 m.height v)

-- `decode_canon` returns the hash that `encode_canon` wrote.
pub decode_canon-encode_canon : (h : Hash256) → IsHash h → decode_canon (encode_canon h) ≡ ok h
unfolding decode_canon encode_canon bytes_eq
decode_canon-encode_canon h v =
    let long : ltb (length (magic_ca ++ h)) 40 ≡ false = ground (arith, v.len) in
    rw (long, take_all 32 h v.len)

length-concat : (hs : List Hash256) → All IsHash hs → length (concat hs) ≡ 32 * length hs
unfolding concat
length-concat [] v = refl
length-concat (h ∷ hs) (v, vs) =
    omega (arith, length-append h (concat hs), v.len, length-concat hs vs)

hashes-concat : (hs : List Hash256) → All IsHash hs → hashes (length hs) (concat hs) ≡ hs
unfolding hashes concat
hashes-concat [] v = refl
hashes-concat (h ∷ hs) (v, vs) =
    ap₂ ◌∷◌ (take_len 32 h (concat hs) v.len)
      (ap (hashes (length hs)) (drop_len 0 32 h (concat hs) v.len) ∙ hashes-concat hs vs)

children_bytes :
    (ns xs : Bytes) (n : ℕ)
    → length ns ≡ 4
    → from_be_bytes ns ≡ n
    → length xs ≡ 32 * n
    → decode_children (magic_ch ++ (ns ++ xs)) ≡ ok (hashes n xs)
unfolding decode_children bytes_eq
children_bytes ns xs n h e k =
    let long : ltb (length (magic_ch ++ (ns ++ xs))) 12 ≡ false =
      ground (arith, length-append ns xs) in
    let whole : (length (magic_ch ++ (ns ++ xs)) == 8 + 4 + 32 * n) ≡ true =
      ground (arith, length-append ns xs) in
    rw (long, take_len 4 ns xs h, e, whole, drop_len 0 4 ns xs h)

-- `decode_children` returns the list that `encode_children` wrote, if it has fewer than 2 ^ 32
-- hashes.
pub decode_children-encode_children :
    (hs : List Hash256)
    → All IsHash hs
    → length hs < 2 ^ 32
    → decode_children (encode_children hs) ≡ ok hs
unfolding encode_children
decode_children-encode_children hs v n = rw (saturate_u32_fits _ n) (
    children_bytes (to_be_bytes 4 (length hs)) (concat hs) (length hs)
      (length-to_be_bytes 4 (length hs)) (from_be_bytes-to_be_bytes 4 (length hs) n)
      (length-concat hs v)
    ∙ ap ok (hashes-concat hs v))
