-- ===== src/Node/Sizes.antt =====
-- What a call of `FramedTcp::recv` takes: bytes of the buffer, or an outcome of `read`.
use egg_project.Prelude.{
  ℕ, ◌+◌, ◌<◌, ◌≤◌, ◌≡◌, ◌≢◌, refl, true, List, [], ◌∷◌, ◌++◌, length, length-append, length-drop,
  drop, take, Result, ok, err, map_err, and_then, arith,
}
use egg_project.Bytes.{Bytes, from_be_bytes}
use egg_project.Net.Message.{Message, decode_message}
use egg_project.Net.Wire.{ProtocolError}
use egg_project.Net.Frame
use egg_project.Net.Frame.{FrameError, too_large, decode_frame, max_frame_len}
use egg_project.Node.Defs.{
  io, frame, waiting, is_io_timeout, Read, chunk, failed, Input, on_decoded, on_read, recv_from,
  recv, Received, Incoming, message, timeout, closed, fault, incoming, io_incoming, timed_out,
  would_block, unexpected_eof, other_kind, chain, protocol, out_of_fuel,
}
use egg_project.Node.Recv.{joined}

-- What is still to be read: the outcomes of `read`, their bytes, and the buffer.
abbrev pub size : Input → ℕ
size i = length i.reads + length (joined i.reads) + length i.buf

-- A round that goes on leaves less to be read.
abbrev Shrinks : ℕ → Received → Type 0
Shrinks n (ok msg, j) = size j < n
Shrinks n (err (io k), j) = is_io_timeout k ≡ true → size j < n
Shrinks n (err (frame e), j) = Unit {0}
Shrinks n (err (chain e), j) = Unit {0}
Shrinks n (err (protocol b), j) = Unit {0}
Shrinks n (err waiting, j) = Unit {0}
Shrinks n (err out_of_fuel, j) = ⊥

taken :
    (r : Result ProtocolError Message) (needed used : ℕ) (m : Message)
    → and_then {B = Message × ℕ} (map_err Frame.protocol r) (λ msg. ok (msg, needed)) ≡ ok (m, used)
    → used ≡ needed
taken (ok msg) needed used m e = cc e
taken (err x) needed used m e = absurd (cc e)

-- A frame takes at least its length field, and no more than there is.
decode_frame_used :
    (buf : Bytes) (m : Message) (used : ℕ)
    → decode_frame buf ≡ ok (m, used)
    → (0 < used) × (used ≤ length buf)
unfolding decode_frame
decode_frame_used buf m used e = ground (
  arith,
  e,
  taken (decode_message (take (from_be_bytes (take 4 buf)) (drop 4 buf)))
      (4 + from_be_bytes (take 4 buf)) used m,
)

decoded-Shrinks :
    (n : ℕ) (rs : List Read) (buf : Bytes) (r : Received)
    → length rs + length (joined rs) + length buf ≤ n
    → Shrinks n r
    → Shrinks n (on_decoded (decode_frame buf) (record { reads = rs; buf = buf }) r)
decoded-Shrinks n rs buf r l h = go (decode_frame buf) refl
  where
    go :
        (d : Result FrameError (Message × ℕ))
        → decode_frame buf ≡ d
        → Shrinks n (on_decoded d (record { reads = rs; buf = buf }) r)
    go (ok (m, used)) e =
        unfold on_decoded in omega (arith, l, decode_frame_used buf m used e, length-drop used buf)
    go (err (too_large k)) e = unfold on_decoded in tt
    go (err (Frame.protocol x)) e = unfold on_decoded in tt
    go (err (Frame.unexpected_eof k j)) e = unfold on_decoded in h

recv_from-Shrinks :
    (rs : List Read) (buf : Bytes) (n : ℕ)
    → length rs + length (joined rs) + length buf ≤ n
    → Shrinks n (recv_from rs buf)
unfolding recv_from
recv_from-Shrinks [] buf n l =
    decoded-Shrinks n [] buf (err waiting, record { reads = []; buf = buf }) l tt
recv_from-Shrinks (r ∷ rs) buf n l =
    decoded-Shrinks n (r ∷ rs) buf (on_read r rs buf (recv_from rs)) l
      (read r l (recv_from-Shrinks rs))
  where
    read :
        (x : Read)
        → length (x ∷ rs) + length (joined (x ∷ rs)) + length buf ≤ n
        → ((c : Bytes) (k : ℕ)
            → length rs + length (joined rs) + length c ≤ k
            → Shrinks k (recv_from rs c))
        → Shrinks n (on_read x rs buf (recv_from rs))
    read (failed k) l ih = unfold on_read in λ e. omega (arith, l)
    read (chunk []) l ih = unfold on_read in λ e. absurd (cc e)
    read (chunk (b ∷ bs)) l ih =
        unfold on_read in
        ih (buf ++ b ∷ bs) n
          (omega (arith, l, length-append buf (b ∷ bs), length-append (b ∷ bs) (joined rs)))

-- What the loops make of a call of `recv`.
abbrev pub Goes : ℕ → Incoming → Input → Type 0
Goes n (message msg) j = size j < n
Goes n timeout j = size j < n
Goes n closed j = Unit {0}
Goes n (fault e) j = e ≢ out_of_fuel

goes : (n : ℕ) (p : Received) → Shrinks n p → Goes n (incoming p.0) p.1
unfolding incoming io_incoming
goes n (ok msg, j) h = h
goes n (err (io timed_out), j) h = h refl
goes n (err (io would_block), j) h = h refl
goes n (err (io unexpected_eof), j) h = tt
goes n (err (io other_kind), j) h = λ e. cc e
goes n (err (frame e), j) h = λ e. cc e
goes n (err (chain e), j) h = λ e. cc e
goes n (err (protocol b), j) h = λ e. cc e
goes n (err waiting, j) h = λ e. cc e
goes n (err out_of_fuel, j) h = absurd h

pub recv-Goes : (i : Input) → Goes (size i) (incoming (recv i).0) (recv i).1
unfolding recv
recv-Goes i = goes (size i) (recv i) (recv_from-Shrinks i.reads i.buf (size i) (omega arith))
