-- ===== src/Net/Framing.antt =====
-- `decode_frame` on the frames that `encode_frame` makes, whole and cut off.
use egg_project.Prelude.{
  ℕ, suc, ◌+◌, ◌<◌, ◌≤◌, ◌≡◌, sym, ap, ◌∙◌, subst, true, false, [], ◌++◌, append_assoc, append-nil,
  length, length-append, take, drop, take_append_length, drop_append_length, length-take, ok, err,
  map_err, and_then, ltb, ltb→lt, ◌-◌, ◌∷◌, Result-cases, arith, if◌then◌else◌, Bool-cases, inl,
  inr,
}
use egg_project.Bytes.{
  Bytes, to_be_bytes, from_be_bytes, length-to_be_bytes, from_be_bytes-to_be_bytes,
}
use egg_project.Canonical.Base.{saturate_u32, saturate_u32_fits}
use egg_project.Net.Message.{Message, encode_message, decode_message}
use egg_project.Net.RoundTrip.{IsMessage, decode_message-encode_message}
use egg_project.Net.Frame.{
  too_large, protocol, unexpected_eof, max_frame_len, frame_of, encode_frame, decode_frame,
}

frame : Bytes → Bytes
frame p = to_be_bytes 4 (length p) ++ p

length-frame : (p : Bytes) → length (frame p) ≡ 4 + length p
unfolding frame
length-frame p =
    length-append (to_be_bytes 4 (length p)) p
    ∙ ap (λ n. n + length p) (length-to_be_bytes 4 (length p))

take4 : (xs ys : Bytes) → length xs ≡ 4 → take 4 (xs ++ ys) ≡ xs
take4 xs ys h = subst (λ n. take n (xs ++ ys) ≡ xs) h (take_append_length xs ys)

drop4 : (xs ys : Bytes) → length xs ≡ 4 → drop 4 (xs ++ ys) ≡ ys
drop4 xs ys h = subst (λ n. drop n (xs ++ ys) ≡ ys) h (drop_append_length xs ys)

-- The length field of a buffer that starts with the one of `p`.
field :
    (p ys : Bytes)
    → length p ≤ max_frame_len
    → from_be_bytes (take 4 (to_be_bytes 4 (length p) ++ ys)) ≡ length p
field p ys h =
    ap from_be_bytes (take4 (to_be_bytes 4 (length p)) ys (length-to_be_bytes 4 (length p)))
    ∙ from_be_bytes-to_be_bytes 4 (length p) (omega (arith, h))

frame_of_short : (p : Bytes) → length p ≤ max_frame_len → frame_of p ≡ ok (frame p)
unfolding frame_of frame
frame_of_short p h =
    let fits : ltb max_frame_len (length p) ≡ false = ground (arith, h) in
    rw (saturate_u32_fits (length p) (omega (arith, h)), fits)

-- What `decode_frame` makes of a buffer that starts with a length field.
field_run :
    (p ys : Bytes)
    → length p ≤ max_frame_len
    → decode_frame (to_be_bytes 4 (length p) ++ ys) ≡ (
        if ltb (length (to_be_bytes 4 (length p) ++ ys)) (4 + length p)
        then err (unexpected_eof (4 + length p) (length (to_be_bytes 4 (length p) ++ ys)))
        else and_then
            (map_err protocol (decode_message (take (length p) ys)))
            λ msg. ok (msg, 4 + length p))
unfolding decode_frame
field_run p ys h =
    let four : ltb (length (to_be_bytes 4 (length p) ++ ys)) 4 ≡ false =
      ground
        (arith, length-append (to_be_bytes 4 (length p)) ys, length-to_be_bytes 4 (length p)) in
    let fits : ltb max_frame_len (length p) ≡ false = ground (arith, h) in
    rw (
      four,
      field p ys h,
      fits,
      drop4 (to_be_bytes 4 (length p)) ys (length-to_be_bytes 4 (length p)),
    )

whole_run :
    (p rest : Bytes)
    → length p ≤ max_frame_len
    → decode_frame (frame p ++ rest)
      ≡ and_then (map_err protocol (decode_message p)) (λ msg. ok (msg, 4 + length p))
unfolding frame
whole_run p rest h =
    let long : ltb (length (to_be_bytes 4 (length p) ++ (p ++ rest))) (4 + length p) ≡ false =
      ground (
        arith,
        length-append (to_be_bytes 4 (length p)) (p ++ rest),
        length-append p rest,
        length-to_be_bytes 4 (length p),
      ) in
    rw append_assoc (field_run p (p ++ rest) h ∙ rw (long, take_append_length p rest))

-- A message of the Rust type with an encoding of at most 8 MiB is put into a frame without an error,
-- and `decode_frame` returns it with the length of the frame, whatever bytes follow.
pub decode_frame-encode_frame :
    (m : Message) (bytes rest : Bytes)
    → IsMessage m
    → encode_message m ≡ ok bytes
    → length bytes ≤ max_frame_len
    → (f : Bytes) × (encode_frame m ≡ ok f) × (decode_frame (f ++ rest) ≡ ok (m, length f))
unfolding encode_frame
decode_frame-encode_frame m bytes rest v e h =
    let (bytes', e', back) = decode_message-encode_message m [] v in
    let same : bytes' ≡ bytes = cc (e, e') in
    let decoded : decode_message bytes ≡ ok m =
      subst (λ xs. decode_message xs ≡ ok m) (append-nil bytes)
        (subst (λ xs. decode_message (xs ++ []) ≡ ok m) same back) in
    (
      frame bytes,
      rw e (frame_of_short bytes h),
      whole_run bytes rest h ∙ rw decoded (ap (λ n. ok (m, n)) (sym (length-frame bytes))),
    )

take_past : (xs ys : Bytes) (n : ℕ) → take (length xs + n) (xs ++ ys) ≡ xs ++ take n ys
take_past [] ys n = ap (λ k. take k ys) (omega arith)
take_past (x ∷ xs) ys n =
    let next : length (x ∷ xs) + n ≡ suc (length xs + n) = omega arith in
    ap (λ k. take k (x ∷ (xs ++ ys))) next ∙ ap (λ t. x ∷ t) (take_past xs ys n)

framed_cases : (p f : Bytes) → frame_of p ≡ ok f → (length p ≤ max_frame_len) × (f ≡ frame p)
framed_cases p f e = elim (Bool-cases (ltb max_frame_len (saturate_u32 (length p)))) [
  | inl q ↦ absurd (cc (refused q))
  | inr q ↦ (small q, built q)
]
  where
    refused :
        ltb max_frame_len (saturate_u32 (length p)) ≡ true
        → ok f ≡ err (too_large (saturate_u32 (length p)))
    refused q = sym e ∙ (unfold frame_of in rw q)

    small : ltb max_frame_len (saturate_u32 (length p)) ≡ false → length p ≤ max_frame_len
    small q = unfold saturate_u32 in ground (arith, q)

    built : ltb max_frame_len (saturate_u32 (length p)) ≡ false → f ≡ frame p
    built q = cc (e, frame_of_short p (small q))

short_run : (buf : Bytes) → length buf < 4 → decode_frame buf ≡ err (unexpected_eof 4 (length buf))
unfolding decode_frame
short_run buf h = let short : ltb (length buf) 4 ≡ true = ground (arith, h) in rw short

-- A frame of which bytes are missing.
cut_run :
    (p : Bytes) (k : ℕ)
    → length p ≤ max_frame_len
    → k < length p
    → decode_frame (take (4 + k) (frame p)) ≡ err (unexpected_eof (4 + length p) (4 + k))
unfolding frame
cut_run p k h l =
    let head = to_be_bytes 4 (length p) in
    let cut : take (4 + k) (head ++ p) ≡ head ++ take k p =
      subst (λ n. take (n + k) (head ++ p) ≡ head ++ take k p) (length-to_be_bytes 4 (length p))
        (take_past head p k) in
    let size : length (head ++ take k p) ≡ 4 + k =
      omega (
        arith,
        length-append head (take k p),
        length-to_be_bytes 4 (length p),
        length-take k p,
        l,
      ) in
    let test : ltb (4 + k) (4 + length p) ≡ true = ground (arith, l) in
    rw (cut, field_run p (take k p) h, size, test)

prefix_run :
    (p : Bytes) (n : ℕ)
    → length p ≤ max_frame_len
    → n < length (frame p)
    → (needed : ℕ) × ((n < needed)
        × (decode_frame (take n (frame p)) ≡ err (unexpected_eof needed n)))
prefix_run p n h l = elim (Bool-cases (ltb n 4)) [
  | inl q ↦
      let size : length (take n (frame p)) ≡ n = omega (arith, length-take n (frame p), l) in
      (
        4,
        (
          ltb→lt n 4 q,
          short_run (take n (frame p)) (omega (arith, size, ltb→lt n 4 q))
              ∙ ap (λ k. err (unexpected_eof 4 k)) size,
        ),
      )
  | inr q ↦
      let over : 4 + (n - 4) ≡ n = ground (arith, q) in
      (
        4 + length p,
        (
          omega (arith, l, length-frame p),
          subst (λ k. decode_frame (take k (frame p)) ≡ err (unexpected_eof (4 + length p) k)) over
              (cut_run p (n - 4) h (omega (arith, over, l, length-frame p))),
        ),
      )
]

-- A frame that `encode_frame` made is at most 4 bytes longer than 8 MiB, and a proper prefix of it is
-- never taken for a message: `decode_frame` asks for more bytes than there are.
pub decode_frame_prefix :
    (m : Message) (f : Bytes) (n : ℕ)
    → encode_frame m ≡ ok f
    → n < length f
    → (length f ≤ 4 + max_frame_len)
      × ((needed : ℕ) × ((n < needed) × (decode_frame (take n f) ≡ err (unexpected_eof needed n))))
unfolding encode_frame
decode_frame_prefix m f n e l = elim (Result-cases (encode_message m)) [
  | inl (p, q) ↦
      let (small, same) =
        framed_cases p f (subst (λ r. and_then (map_err protocol r) frame_of ≡ ok f) q e) in
      subst
        (λ g.
          (length g ≤ 4 + max_frame_len)
          × ((needed : ℕ) × ((n < needed)
                × (decode_frame (take n g) ≡ err (unexpected_eof needed n)))))
        (sym same)
        (
          omega (arith, small, length-frame p),
          prefix_run p n small (subst (λ g. n < length g) same l),
        )
  | inr (x, q) ↦ absurd (cc (subst (λ r. and_then (map_err protocol r) frame_of ≡ ok f) q e))
]

-- The frame of a message of the Rust type, with the bytes that follow it.
pub decode_frame-framed :
    (m : Message) (f rest : Bytes)
    → IsMessage m
    → encode_frame m ≡ ok f
    → decode_frame (f ++ rest) ≡ ok (m, length f)
unfolding encode_frame
decode_frame-framed m f rest v e = elim (Result-cases (encode_message m)) [
  | inl (p, q) ↦
      let (small, _) =
        framed_cases p f (subst (λ r. and_then (map_err protocol r) frame_of ≡ ok f) q e) in
      let (f', e', d) = decode_frame-encode_frame m p rest v q small in
      let same : f' ≡ f = cc (e, e') in
      subst (λ g. decode_frame (g ++ rest) ≡ ok (m, length g)) same d
  | inr (x, q) ↦ absurd (cc (subst (λ r. and_then (map_err protocol r) frame_of ≡ ok f) q e))
]
