-- ===== src/Net/Message.antt =====
-- EGG-Chain/crates/egg-net/src/protocol.rs: messages, `encode_message` and `decode_message`.
use egg_project.Prelude.{
  ℕ, zero, suc, not, List, [], ◌∷◌, length, Result, ok, map_err, and_then, ◌==◌, if◌then◌else◌,
}
use egg_project.Bytes.{Bytes}
use egg_project.Types.{Hash256, BlockHeader, Block}
use egg_project.Cursor.Base.{Parser, pure, fail, ◌>>=◌, ◌>>◌, run}
use egg_project.Canonical.Base.{saturate_u32}
use egg_project.Canonical.Header.{encode_block_header, decode_block_header}
use egg_project.Canonical.Blocks.{encode_block, decode_block, lift}
use egg_project.Net.Wire.{
  ProtocolError, unsupported_version, invalid_tag, canonical, magic, take_u8, take_u16_be,
  take_u32_be, take_u64_be, take_hash256, expect_magic, take_string_len_u32, take_bytes_len_u32,
  push_u8, push_u16_be, push_u32_be, push_u64_be, push_hash256, push_bytes_len_u32,
  push_string_len_u32,
}

abbrev pub version : ℕ
version = 1

pub record Tip : Type 0 where
  pub height : ℕ
  pub hash : Hash256

-- The fields of `Hello` and of `HelloAck`.
pub record Greeting : Type 0 where
  pub chain_id : ℕ
  pub genesis_id : Hash256
  pub tip : Tip
  pub node_nonce : ℕ
  pub agent : Bytes

-- `get_headers start max`, `block_found id block`
pub data Message : Type 0 where
  hello : Greeting → Message
  hello_ack : Greeting → Message
  get_headers : Hash256 → ℕ → Message
  headers : List BlockHeader → Message
  get_block : Hash256 → Message
  block_found : Hash256 → Block → Message
  block_not_found : Hash256 → Message
  ping : ℕ → Message
  pong : ℕ → Message

-- `encode_tip`, `decode_tip`
abbrev pub push_tip : Bytes → Tip → Bytes
push_tip out tip = push_hash256 (push_u64_be out tip.height) tip.hash

unfoldable pub take_tip : Parser ProtocolError Tip
take_tip = do
  height ← take_u64_be
  hash ← take_hash256
  pure (record { height = height; hash = hash })

unfoldable pub push_greeting : Bytes → Greeting → Result ProtocolError Bytes
unfolding push_string_len_u32
push_greeting out g =
    let out = push_u32_be out g.chain_id in
    let out = push_hash256 out g.genesis_id in
    let out = push_tip out g.tip in push_string_len_u32 (push_u64_be out g.node_nonce) g.agent

-- `for h in headers`
unfoldable pub push_headers : Bytes → List BlockHeader → Result ProtocolError Bytes
push_headers out [] = ok out
push_headers out (h ∷ hs) =
    and_then (push_bytes_len_u32 out (encode_block_header h)) λ out'. push_headers out' hs

-- What stands before the payload of a message with the tag.
abbrev pub prefix : ℕ → Bytes
prefix tag = push_u8 (push_u16_be magic version) tag

unfoldable pub encode_message : Message → Result ProtocolError Bytes
unfolding push_greeting push_headers push_bytes_len_u32
encode_message (hello g) = push_greeting (prefix 1) g
encode_message (hello_ack g) = push_greeting (prefix 2) g
encode_message (get_headers start max) = ok (push_u32_be (push_hash256 (prefix 10) start) max)
encode_message (headers hs) = push_headers (push_u32_be (prefix 11) (saturate_u32 (length hs))) hs
encode_message (get_block id) = ok (push_hash256 (prefix 12) id)
encode_message (block_found id block) =
    push_bytes_len_u32 (push_hash256 (prefix 13) id) (encode_block block)
encode_message (block_not_found id) = ok (push_hash256 (prefix 14) id)
encode_message (ping nonce) = ok (push_u64_be (prefix 20) nonce)
encode_message (pong nonce) = ok (push_u64_be (prefix 21) nonce)

unfoldable pub take_greeting : Parser ProtocolError Greeting
unfolding take_tip take_string_len_u32
take_greeting = do
  chain_id ← take_u32_be
  genesis_id ← take_hash256
  tip ← take_tip
  node_nonce ← take_u64_be
  agent ← take_string_len_u32
  pure (record {
    chain_id = chain_id;
    genesis_id = genesis_id;
    tip = tip;
    node_nonce = node_nonce;
    agent = agent;
  })

unfoldable pub take_header : Parser ProtocolError BlockHeader
unfolding take_bytes_len_u32
take_header = do hb ← take_bytes_len_u32; lift (map_err canonical (decode_block_header hb))

-- `for _ in 0..n`
unfoldable pub take_headers : ℕ → Parser ProtocolError (List BlockHeader)
take_headers zero = pure []
take_headers (suc n) = do h ← take_header; hs ← take_headers n; pure (h ∷ hs)

unfoldable pub take_block : Parser ProtocolError Block
unfolding take_bytes_len_u32
take_block = do bb ← take_bytes_len_u32; lift (map_err canonical (decode_block bb))

-- `match tag`
unfoldable pub take_payload : ℕ → Parser ProtocolError Message
unfolding take_greeting take_headers take_block
take_payload tag =
    if tag == 1
    then (do g ← take_greeting; pure (hello g))
    else if tag == 2
    then (do g ← take_greeting; pure (hello_ack g))
    else if tag == 10
    then (do start ← take_hash256; max ← take_u32_be; pure (get_headers start max))
    else if tag == 11
    then (do n ← take_u32_be; hs ← take_headers n; pure (headers hs))
    else if tag == 12
    then (do id ← take_hash256; pure (get_block id))
    else if tag == 13
    then (do id ← take_hash256; b ← take_block; pure (block_found id b))
    else if tag == 14
    then (do id ← take_hash256; pure (block_not_found id))
    else if tag == 20
    then (do nonce ← take_u64_be; pure (ping nonce))
    else if tag == 21
    then (do nonce ← take_u64_be; pure (pong nonce))
    else fail (invalid_tag tag)

unfoldable pub take_tagged : Parser ProtocolError Message
unfolding take_payload take_u8
take_tagged = do tag ← take_u8; take_payload tag

unfoldable pub message_parser : Parser ProtocolError Message
unfolding take_tagged expect_magic take_u16_be
message_parser = do
  expect_magic
  ver ← take_u16_be
  if not (ver == version) then fail (unsupported_version ver) else take_tagged

unfoldable pub decode_message : Bytes → Result ProtocolError Message
unfolding message_parser
decode_message = run message_parser
