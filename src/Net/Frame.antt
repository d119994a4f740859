-- ===== src/Net/Frame.antt =====
-- EGG-Chain/crates/egg-net/src/codec.rs: messages in frames, a length and then the message.
use egg_project.Prelude.{
  ℕ, ◌+◌, ◌*◌, ◌++◌, length, take, drop, Result, ok, err, map_err, and_then, ltb, if◌then◌else◌,
}
use egg_project.Bytes.{Bytes, to_be_bytes, from_be_bytes}
use egg_project.Canonical.Base.{saturate_u32}
use egg_project.Net.Wire.{ProtocolError}
use egg_project.Net.Message.{Message, encode_message, decode_message}

-- `unexpected_eof needed remaining`
pub data FrameError : Type 0 where
  too_large : ℕ → FrameError
  protocol : ProtocolError → FrameError
  unexpected_eof : ℕ → ℕ → FrameError

abbrev pub max_frame_len : ℕ
max_frame_len = 8 * 1024 * 1024

unfoldable pub frame_of : Bytes → Result FrameError Bytes
frame_of payload =
    let len_u32 = saturate_u32 (length payload) in
    if ltb max_frame_len len_u32
    then err (too_large len_u32)
    else ok (to_be_bytes 4 len_u32 ++ payload)

unfoldable pub encode_frame : Message → Result FrameError Bytes
unfolding encode_message frame_of
encode_frame msg = and_then (map_err protocol (encode_message msg)) frame_of

-- The message, and how many bytes it took.
unfoldable pub decode_frame : Bytes → Result FrameError (Message × ℕ)
unfolding decode_message
decode_frame buf =
    if ltb (length buf) 4
    then err (unexpected_eof 4 (length buf))
    else let len = from_be_bytes (take 4 buf) in
      let needed = 4 + len in
      if ltb max_frame_len len
      then err (too_large len)
      else if ltb (length buf) needed
      then err (unexpected_eof needed (length buf))
      else and_then (map_err protocol (decode_message (take len (drop 4 buf))))
          λ msg. ok (msg, needed)
