-- ===== src/Node/Recv.antt =====
-- `FramedTcp::recv` on a stream of frames, however `read` cuts it.
use egg_project.Prelude.{
  ℕ, suc, ◌<◌, ◌≤◌, ◌≡◌, refl, sym, ap, ◌∙◌, subst, true, List, [], ◌∷◌, ◌++◌, append_assoc, length,
  length-append, take, drop, drop_append_length, ok, err, All, arith,
}
use egg_project.Bytes.{Bytes}
use egg_project.Net.Message.{Message}
use egg_project.Net.RoundTrip.{IsMessage}
use egg_project.Net.Frame.{unexpected_eof, encode_frame, decode_frame}
use egg_project.Net.Framing.{decode_frame-framed, decode_frame_prefix}
use egg_project.Node.Defs.{
  ErrorKind, is_io_timeout, io, Read, chunk, failed, on_decoded, on_read, recv_from, Received,
}

-- A call of `read` that brings bytes or times out.
abbrev pub IsAlive : Read → Type 0
IsAlive (chunk []) = ⊥
IsAlive (chunk (b ∷ bs)) = Unit {0}
IsAlive (failed k) = is_io_timeout k ≡ true

-- The bytes that the calls bring.
abbrev pub joined : List Read → Bytes
joined [] = []
joined (chunk bs ∷ rs) = bs ++ joined rs
joined (failed k ∷ rs) = joined rs

-- The bytes are the frames of the messages, one after the other.
abbrev pub AreFrames : List Message → Bytes → Type 0
AreFrames [] bs = bs ≡ []
AreFrames (m ∷ ms) bs =
    (f : Bytes) × (rest : Bytes) × IsMessage m
    × (encode_frame m ≡ ok f)
    × AreFrames ms rest
    × (bs ≡ f ++ rest)

-- Where two ways to cut a list differ, the first part of one is a prefix of the other's.
pub data Cut (xs ys f rest : Bytes) : Type 0 where
  whole : (more : Bytes) → xs ≡ f ++ more → more ++ ys ≡ rest → Cut xs ys f rest
  part : length xs < length f → xs ≡ take (length xs) f → Cut xs ys f rest

cons-Cut : (a : ℕ) (xs ys f rest : Bytes) → Cut xs ys f rest → Cut (a ∷ xs) ys (a ∷ f) rest
cons-Cut a xs ys f rest (whole more p q) = whole more (ap (λ t. a ∷ t) p) q
cons-Cut a xs ys f rest (part l p) = part (omega (arith, l)) (ap (λ t. a ∷ t) p)

Cut-at : (xs ys f rest : Bytes) → xs ++ ys ≡ f ++ rest → Cut xs ys f rest
Cut-at xs ys [] rest e = whole xs refl e
Cut-at [] ys (b ∷ f) rest e = part (omega arith) refl
Cut-at (a ∷ xs) ys (b ∷ f) rest e =
    let tails : xs ++ ys ≡ f ++ rest = cc e in
    let heads : a ≡ b = cc e in
    subst (λ c. Cut (a ∷ xs) ys (c ∷ f) rest) heads
      (cons-Cut a xs ys f rest (Cut-at xs ys f rest tails))

-- What `recv` finds at the start of a stream: the first message, or a timeout before it is there.
pub data Arrival (after : List Read) (m : Message) (f rest : Bytes) (n : ℕ) (r : Received)
    : Type 0 where
  got :
      (rs : List Read) (b : Bytes)
      → r ≡ (ok m, record { reads = rs ++ after; buf = b })
      → All IsAlive rs
      → length rs ≤ n
      → b ++ joined rs ≡ rest
      → Arrival after m f rest n r
  late :
      (k : ErrorKind) (rs : List Read) (b : Bytes)
      → r ≡ (err (io k), record { reads = rs ++ after; buf = b })
      → is_io_timeout k ≡ true
      → All IsAlive rs
      → length rs < n
      → b ++ joined rs ≡ f ++ rest
      → Arrival after m f rest n r

module _ (after : List Read) (m : Message) (f rest : Bytes) (v : IsMessage m)
    (e : encode_frame m ≡ ok f) where
  found :
      (rs : List Read) (buf more : Bytes) (r : Received)
      → buf ≡ f ++ more
      → on_decoded (decode_frame buf) (record { reads = rs; buf = buf }) r
        ≡ (ok m, record { reads = rs; buf = more })
  unfolding on_decoded
  found rs buf more r q =
      let whole_frame : decode_frame buf ≡ ok (m, length f) =
        subst (λ b. decode_frame b ≡ ok (m, length f)) (sym q) (decode_frame-framed m f more v e) in
      let left : drop (length f) buf ≡ more =
        subst (λ b. drop (length f) b ≡ more) (sym q) (drop_append_length f more) in
      rw (whole_frame, left)

  missing :
      (rs : List Read) (buf : Bytes) (r : Received)
      → length buf < length f
      → buf ≡ take (length buf) f
      → on_decoded (decode_frame buf) (record { reads = rs; buf = buf }) r ≡ r
  unfolding on_decoded
  missing rs buf r l q =
      let (needed, (_, short)) = (decode_frame_prefix m f (length buf) e l).1 in
      let cut : decode_frame buf ≡ err (unexpected_eof needed (length buf)) =
        subst (λ b. decode_frame b ≡ err (unexpected_eof needed (length buf))) (sym q) short in
      rw cut

  -- A round of `recv` that finds no whole frame.
  next_read :
      (rs : List Read) (buf : Bytes) (x : Read)
      → length buf < length f
      → buf ≡ take (length buf) f
      → recv_from (x ∷ rs) buf ≡ on_read x rs buf (recv_from rs)
  unfolding recv_from
  next_read rs buf x l q = missing (x ∷ rs) buf _ l q

  found_whole :
      (rs : List Read) (buf more : Bytes)
      → buf ≡ f ++ more
      → recv_from rs buf ≡ (ok m, record { reads = rs; buf = more })
  unfolding recv_from
  found_whole [] buf more q = found [] buf more _ q
  found_whole (x ∷ rs) buf more q = found (x ∷ rs) buf more _ q

  wait : (n : ℕ) (r : Received) → Arrival after m f rest n r → Arrival after m f rest (suc n) r
  wait n r (got rs b p a l q) = got rs b p a (omega (arith, l)) q
  wait n r (late k rs b p t a l q) = late k rs b p t a (omega (arith, l)) q

  pub recv_from_stream :
      (rs : List Read) (buf : Bytes)
      → All IsAlive rs
      → buf ++ joined rs ≡ f ++ rest
      → Arrival after m f rest (length rs) (recv_from (rs ++ after) buf)
  recv_from_stream [] buf a q = elim (Cut-at buf [] f rest q) [
    | whole more p w ↦ got [] more (found_whole after buf more p) tt (omega arith) w
    | part l p ↦
        absurd (omega (arith, l, ap (λ b. length b) q, length-append f rest, length-append buf []))
  ]
  recv_from_stream (x ∷ rs) buf a q = elim (Cut-at buf (joined (x ∷ rs)) f rest q) [
    | whole more p w ↦
        got (x ∷ rs) more (found_whole (x ∷ rs ++ after) buf more p) a (omega arith) w
    | part l p ↦
        subst (Arrival after m f rest (suc (length rs))) (sym (next_read (rs ++ after) buf x l p))
          (step x a q (recv_from_stream rs))
  ]
    where
      step :
          (x : Read)
          → All IsAlive (x ∷ rs)
          → buf ++ joined (x ∷ rs) ≡ f ++ rest
          → ((c : Bytes)
              → All IsAlive rs
              → c ++ joined rs ≡ f ++ rest
              → Arrival after m f rest (length rs) (recv_from (rs ++ after) c))
          → Arrival after m f rest
              (suc (length rs))
              (on_read x (rs ++ after) buf (recv_from (rs ++ after)))
      step (chunk []) a q ih = elim a.0 [ ]
      step (chunk (b ∷ bs)) a q ih =
          unfold on_read in
          wait (length rs) _ (ih (buf ++ b ∷ bs) a.1 (append_assoc buf (b ∷ bs) (joined rs) ∙ q))
      step (failed k) a q ih = unfold on_read in late k rs buf refl a.0 a.1 (omega arith) q
