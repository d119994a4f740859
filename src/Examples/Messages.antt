-- ===== src/Examples/Messages.antt =====
-- Uses of the theorems on messages and frames, and tests.
use egg_project.Prelude.{ℕ, ◌≡◌, refl, [], ◌∷◌, ◌++◌, length, take, ◌<◌, ◌≤◌, ◌+◌, ok, err, arith}
use egg_project.Bytes.{Bytes, to_be_bytes}
use egg_project.Utf8.{is_utf8}
use egg_project.Canonical.Base.{saturate_u32}
use egg_project.Net.Message.{Greeting, hello, ping, encode_message, decode_message}
use egg_project.Net.RoundTrip.{IsGreeting, decode_message-encode_message}
use egg_project.Net.Frame.{encode_frame, decode_frame, max_frame_len, unexpected_eof}
use egg_project.Net.Framing.{decode_frame-encode_frame, decode_frame_prefix}
use egg_project.Examples.Data.{hash_of, hash_of-IsHash}

abbrev pub greeting1 : Greeting
greeting1 = record {
  chain_id = 1;
  genesis_id = hash_of 3;
  tip = record { height = 9; hash = hash_of 4 };
  node_nonce = 77;
  agent = b'e' ∷ b'g' ∷ b'g' ∷ [];
}

greeting1-IsGreeting : IsGreeting greeting1
unfolding is_utf8
greeting1-IsGreeting = record {
  chain_ok = omega arith;
  genesis_ok = hash_of-IsHash 3;
  height_ok = omega arith;
  hash_ok = hash_of-IsHash 4;
  nonce_ok = omega arith;
  agent_utf8 = refl;
  agent_short = omega arith;
}

decode_message-encode_message_example :
    (bytes : Bytes) × (encode_message (hello greeting1) ≡ ok bytes)
    × (decode_message (bytes ++ (5 ∷ [])) ≡ ok (hello greeting1))
decode_message-encode_message_example =
    decode_message-encode_message (hello greeting1) (5 ∷ []) greeting1-IsGreeting

-- The bytes of `Ping { nonce: 258 }`.
abbrev pub ping_bytes : Bytes
ping_bytes =
    b'E' ∷ b'G' ∷ b'G' ∷ b'N' ∷ b'E' ∷ b'T' ∷ b'0' ∷ b'0' ∷ 0 ∷ 1 ∷ 20 ∷ 0 ∷ 0 ∷ 0 ∷ 0 ∷ 0 ∷ 0 ∷ 1
    ∷ 2 ∷ []

ping_encoded : encode_message (ping 258) ≡ ok ping_bytes
unfolding encode_message to_be_bytes
ping_encoded = refl

pub ping_framed : encode_frame (ping 258) ≡ ok (0 ∷ 0 ∷ 0 ∷ 19 ∷ ping_bytes)
unfolding encode_frame to_be_bytes saturate_u32
ping_framed = refl

decode_frame-encode_frame_example :
    (f : Bytes) × (encode_frame (ping 258) ≡ ok f)
    × (decode_frame (f ++ (1 ∷ [])) ≡ ok (ping 258, length f))
decode_frame-encode_frame_example =
    decode_frame-encode_frame (ping 258) ping_bytes (1 ∷ []) (omega arith) ping_encoded
      (omega arith)

decode_frame_prefix_example :
    (length (0 ∷ 0 ∷ 0 ∷ 19 ∷ ping_bytes) ≤ 4 + max_frame_len)
    × ((needed : ℕ) × ((10 < needed)
          × (decode_frame (take 10 (0 ∷ 0 ∷ 0 ∷ 19 ∷ ping_bytes))
              ≡ err (unexpected_eof needed 10))))
decode_frame_prefix_example =
    decode_frame_prefix (ping 258) (0 ∷ 0 ∷ 0 ∷ 19 ∷ ping_bytes) 10 ping_framed (omega arith)
