-- ===== src/Node/Defs.antt =====
-- EGG-Chain/crates/egg-node/src/lib.rs: errors, and the connection. What the network and the clock
-- do is data: the outcomes of the calls of `read` are a list, that of the n-th frame written is a
-- function, and so is the n-th reading of the clock, in nanoseconds. The three calls that set the
-- options of a new socket do not fail here.
use egg_project.Prelude.{
  ℕ, ◌+◌, ◌*◌, ◌^◌, Bool, true, false, Option, none, some, List, [], ◌∷◌, ◌++◌, length, drop,
  Result, ok, err, map_err,
}
use egg_project.Bytes.{Bytes}
use egg_project.Types.{Hash256}
use egg_project.Exec.{Exec, ◌>>=◌, ◌>>◌}
use egg_project.Net.Message.{Message}
use egg_project.Net.Frame
use egg_project.Net.Frame.{FrameError, too_large, encode_frame, decode_frame}
use egg_project.Net.Peer.Defs.{Ban}
use egg_project.Chain.Defs.{ChainStateError}

-- `1 + max_block_retries` attempts in all.
abbrev pub max_block_retries : ℕ
max_block_retries = 2

abbrev pub block_window : ℕ
block_window = 16

-- `Duration::from_secs(2)`
abbrev pub per_req_resend_after : ℕ
per_req_resend_after = 2 * 10 ^ 9

-- `Duration::from_secs(20)`
abbrev pub session_idle_timeout : ℕ
session_idle_timeout = 20 * 10 ^ 9

-- `std::io::ErrorKind`
pub data ErrorKind : Type 0 where
  timed_out would_block unexpected_eof other_kind : ErrorKind

-- What the texts of `NodeError::Protocol` say.
pub data Breach : Type 0 where
  peer_banned : Option Ban → Breach
  header_sync_idle : Breach
  block_sync_idle : ℕ → ℕ → Breach
  unexpected_found : Hash256 → Breach
  found_without_header : Hash256 → Breach
  found_other_header : Hash256 → Hash256 → Breach
  unexpected_not_found : Hash256 → Breach
  not_found_after_retries : Hash256 → Breach
  timeout_after_retries : Hash256 → Breach

-- `chain e` holds the error, not its text. The last two are not the source's: `waiting` stands for a
-- call of `read` that has no outcome in the list, and `out_of_fuel` for a loop that took more rounds
-- than it was given.
pub data NodeError : Type 0 where
  io : ErrorKind → NodeError
  frame : FrameError → NodeError
  chain : ChainStateError → NodeError
  protocol : Breach → NodeError
  waiting : NodeError
  out_of_fuel : NodeError

abbrev pub is_io_timeout : ErrorKind → Bool
is_io_timeout timed_out = true
is_io_timeout would_block = true
is_io_timeout unexpected_eof = false
is_io_timeout other_kind = false

-- The outcome of one call of `read`.
pub data Read : Type 0 where
  chunk : Bytes → Read
  failed : ErrorKind → Read

-- The half of a connection that is read: what is still to come, and `buf`.
pub record Input : Type 0 where
  pub reads : List Read
  pub buf : Bytes

-- The half that is written, with the clock: the messages whose frames were written, in order.
pub record Output : Type 0 where
  pub sent : List Message
  pub write_fault : ℕ → Option ErrorKind
  pub clock : ℕ → ℕ
  pub readings : ℕ

abbrev pub Writing : Type 0 → Type 0
Writing A = Exec Output NodeError A

-- `Instant::now()`
unfoldable pub instant_now : Writing ℕ
instant_now o = (ok (o.clock o.readings), record o { readings = o.readings + 1 })

unfoldable pub written : Message → Option ErrorKind → Writing (Unit {0})
written msg none o = (ok tt, record o { sent = o.sent ++ msg ∷ [] })
written msg (some k) o = (err (io k), o)

-- `write_all` and `flush`
unfoldable pub write_frame : Message → Bytes → Writing (Unit {0})
unfolding written
write_frame msg f o = written msg (o.write_fault (length o.sent)) o

-- `FramedTcp::send`
unfoldable pub encoded : Message → Writing Bytes
encoded msg o = (map_err frame (encode_frame msg), o)

unfoldable pub send : Message → Writing (Unit {0})
unfolding encoded write_frame ◌>>=◌
send msg = do f ← encoded msg; write_frame msg f

-- `for m in out { io.send(&m)?; }`
unfoldable pub send_all : List Message → Writing (Unit {0})
unfolding send ◌>>◌
send_all [] o = (ok tt, o)
send_all (m ∷ ms) o = (send m >> send_all ms) o

abbrev pub Received : Type 0
Received = Result NodeError Message × Input

-- `match decode_frame(&self.buf)`, and `more` where the buffer holds no whole frame.
unfoldable pub on_decoded : Result FrameError (Message × ℕ) → Input → Received → Received
on_decoded (ok (msg, used)) i more = (ok msg, record i { buf = drop used i.buf })
on_decoded (err (Frame.unexpected_eof needed remaining)) i more = more
on_decoded (err (too_large n)) i more = (err (frame (too_large n)), i)
on_decoded (err (Frame.protocol e)) i more = (err (frame (Frame.protocol e)), i)

-- One call of `read`, and `next` on the buffer with what came.
unfoldable pub on_read : Read → List Read → Bytes → (Bytes → Received) → Received
on_read (failed k) rest buf next = (err (io k), record { reads = rest; buf = buf })
on_read (chunk []) rest buf next = (err (io unexpected_eof), record { reads = rest; buf = buf })
on_read (chunk (b ∷ bs)) rest buf next = next (buf ++ b ∷ bs)

-- The loop of `FramedTcp::recv`: every round but the last takes an outcome of `read`.
unfoldable pub recv_from : List Read → Bytes → Received
unfolding on_decoded on_read
recv_from [] buf =
    on_decoded (decode_frame buf) (record { reads = []; buf = buf })
      (err waiting, record { reads = []; buf = buf })
recv_from (r ∷ rest) buf =
    on_decoded (decode_frame buf) (record { reads = r ∷ rest; buf = buf })
      (on_read r rest buf (recv_from rest))

unfoldable pub recv : Input → Received
unfolding recv_from
recv i = recv_from i.reads i.buf

-- The arms of `match io.recv()`.
pub data Incoming : Type 0 where
  message : Message → Incoming
  timeout : Incoming
  closed : Incoming
  fault : NodeError → Incoming

unfoldable pub io_incoming : ErrorKind → Incoming
io_incoming timed_out = timeout
io_incoming would_block = timeout
io_incoming unexpected_eof = closed
io_incoming other_kind = fault (io other_kind)

unfoldable pub incoming : Result NodeError Message → Incoming
unfolding io_incoming
incoming (ok msg) = message msg
incoming (err (io k)) = io_incoming k
incoming (err e) = fault e
