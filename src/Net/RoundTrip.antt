-- ===== src/Net/RoundTrip.antt =====
-- `decode_message` reads what `encode_message` wrote.
use egg_project.Prelude.{
  ℕ, suc, ◌^◌, ◌<◌, ◌≡◌, sym, ap, ◌∙◌, subst, true, List, [], ◌∷◌, ◌++◌, append_assoc, append-nil,
  length, All, Result, ok, map_err, lt→ltb, arith,
}
use egg_project.Bytes.{Bytes, to_be_bytes}
use egg_project.Utf8.{is_utf8}
use egg_project.Types.{BlockHeader, Block, IsHash, IsU32, IsU64, IsHeader, IsBlock}
use egg_project.Cursor.Reads.{
  Reads, Reads-pure, Reads-bind, Reads-map, run-Reads, take_u32_be-Reads, take_u64_be-Reads,
  take_hash256-Reads,
}
use egg_project.Canonical.Base.{saturate_u32_fits}
use egg_project.Canonical.Header.{
  encode_block_header, decode_block_header, decode_block_header-encode_block_header,
  length-encode_block_header,
}
use egg_project.Canonical.Blocks.{
  encode_block, decode_block, decode_block-encode_block, lift, FitsU32,
}
use egg_project.Net.Wire.{
  ProtocolError, unexpected_eof, canonical, magic, take_u8-Reads, take_u16_be-Reads,
  expect_magic-Reads, take_bytes_len_u32, take_bytes_len_u32-Reads, take_string_len_u32-Reads,
  push_bytes_len_u32, push_string_len_u32,
}
use egg_project.Net.Message.{
  Tip, Greeting, Message, hello, hello_ack, get_headers, headers, get_block, block_found,
  block_not_found, ping, pong, version, take_tip, take_greeting, take_header, take_headers,
  take_block, take_payload, take_tagged, message_parser, decode_message, encode_message,
  push_greeting, push_headers, prefix,
}

pub record IsGreeting (g : Greeting) : Type 0 where
  pub chain_ok : IsU32 g.chain_id
  pub genesis_ok : IsHash g.genesis_id
  pub height_ok : IsU64 g.tip.height
  pub hash_ok : IsHash g.tip.hash
  pub nonce_ok : IsU64 g.node_nonce
  pub agent_utf8 : is_utf8 g.agent ≡ true
  pub agent_short : length g.agent < 2 ^ 32

-- A block that its encoding and the length field before it are exact for.
pub record IsSendable (b : Block) : Type 0 where
  pub block_ok : IsBlock b
  pub txs_fit : All FitsU32 b.txs
  pub txs_few : length b.txs < 2 ^ 32
  pub short : length (encode_block b) < 2 ^ 32

-- The messages of the Rust type whose length fields are exact.
abbrev pub IsMessage : Message → Type 0
IsMessage (hello g) = IsGreeting g
IsMessage (hello_ack g) = IsGreeting g
IsMessage (get_headers start max) = IsHash start × IsU32 max
IsMessage (headers hs) = All IsHeader hs × (length hs < 2 ^ 32)
IsMessage (get_block id) = IsHash id
IsMessage (block_found id b) = IsHash id × IsSendable b
IsMessage (block_not_found id) = IsHash id
IsMessage (ping nonce) = IsU64 nonce
IsMessage (pong nonce) = IsU64 nonce

counted : Bytes → Bytes
counted xs = to_be_bytes 4 (length xs) ++ xs

push_counted :
    (out xs : Bytes) → length xs < 2 ^ 32 → push_bytes_len_u32 out xs ≡ ok (out ++ counted xs)
unfolding push_bytes_len_u32 counted
push_counted out xs h = rw (lt→ltb (length xs) (2 ^ 32) h, append_assoc)

lift-Reads : {A : Type 0} (r : Result ProtocolError A) (a : A) → r ≡ ok a → Reads (lift r) [] a
lift-Reads r a h = rw (h, lift) (Reads-pure a)

-- Fields.
tip_bytes : Tip → Bytes
tip_bytes t = to_be_bytes 8 t.height ++ t.hash

take_tip-Reads : (t : Tip) → IsU64 t.height → IsHash t.hash → Reads take_tip (tip_bytes t) t
unfolding take_tip tip_bytes
take_tip-Reads t u h =
    Reads-bind _ _ _ _ _ _ (take_u64_be-Reads unexpected_eof _ u)
      (Reads-map _ _ _ _ (take_hash256-Reads unexpected_eof _ h))

greeting_bytes : Greeting → Bytes
greeting_bytes g =
    to_be_bytes 4 g.chain_id
    ++ (g.genesis_id ++ (tip_bytes g.tip ++ (to_be_bytes 8 g.node_nonce ++ counted g.agent)))

take_greeting-Reads : (g : Greeting) → IsGreeting g → Reads take_greeting (greeting_bytes g) g
unfolding take_greeting greeting_bytes counted
take_greeting-Reads g v = Reads-bind _ _ _ _ _ _ (take_u32_be-Reads unexpected_eof _ v.chain_ok) (
    Reads-bind _ _ _ _ _ _ (take_hash256-Reads unexpected_eof _ v.genesis_ok) (
      Reads-bind _ _ _ _ _ _ (take_tip-Reads g.tip v.height_ok v.hash_ok) (
        Reads-bind _ _ _ _ _ _ (take_u64_be-Reads unexpected_eof _ v.nonce_ok)
          (Reads-map _ _ _ _ (take_string_len_u32-Reads g.agent v.agent_utf8 v.agent_short)))))

push_greeting_bytes :
    (out : Bytes) (g : Greeting) → IsGreeting g → push_greeting out g ≡ ok (out ++ greeting_bytes g)
unfolding push_greeting push_string_len_u32 greeting_bytes tip_bytes
push_greeting_bytes out g v = push_counted _ g.agent v.agent_short ∙ simp append_assoc

header_short : (h : BlockHeader) → IsHeader h → length (encode_block_header h) < 2 ^ 32
header_short h v = omega (arith, length-encode_block_header h v)

take_header-Reads :
    (h : BlockHeader) → IsHeader h → Reads take_header (counted (encode_block_header h)) h
unfolding take_header counted
take_header-Reads h v =
    subst (λ xs. Reads take_header xs h) (append-nil _)
      (Reads-bind take_bytes_len_u32 _ _ [] (encode_block_header h) h
        (take_bytes_len_u32-Reads (encode_block_header h) (header_short h v))
        (lift-Reads _ h (
          ap (map_err canonical) (
            subst (λ xs. decode_block_header xs ≡ ok h) (append-nil _)
              (decode_block_header-encode_block_header h [] v)))))

headers_bytes : List BlockHeader → Bytes
headers_bytes [] = []
headers_bytes (h ∷ hs) = counted (encode_block_header h) ++ headers_bytes hs

take_headers-Reads :
    (hs : List BlockHeader)
    → All IsHeader hs
    → Reads (take_headers (length hs)) (headers_bytes hs) hs
take_headers-Reads [] v = unfold take_headers headers_bytes in Reads-pure []
take_headers-Reads (h ∷ hs) (v, vs) = step (take_headers-Reads hs vs)
  where
    step :
        Reads (take_headers (length hs)) (headers_bytes hs) hs
        → Reads (take_headers (suc (length hs))) (headers_bytes (h ∷ hs)) (h ∷ hs)
    step ih =
        unfold take_headers headers_bytes in
        Reads-bind take_header _ _ _ h (h ∷ hs) (take_header-Reads h v)
          (Reads-map (take_headers (length hs)) (λ ts. h ∷ ts) _ hs ih)

push_headers_bytes :
    (out : Bytes) (hs : List BlockHeader)
    → All IsHeader hs
    → push_headers out hs ≡ ok (out ++ headers_bytes hs)
push_headers_bytes out [] v = unfold push_headers headers_bytes in ap ok (sym (append-nil out))
push_headers_bytes out (h ∷ hs) (v, vs) =
    step (push_headers_bytes (out ++ counted (encode_block_header h)) hs vs)
  where
    step :
        push_headers (out ++ counted (encode_block_header h)) hs
          ≡ ok ((out ++ counted (encode_block_header h)) ++ headers_bytes hs)
        → push_headers out (h ∷ hs) ≡ ok (out ++ headers_bytes (h ∷ hs))
    step ih =
        unfold push_headers headers_bytes in
        rw (push_counted out (encode_block_header h) (header_short h v))
          (ih ∙ ap ok (append_assoc out (counted (encode_block_header h)) (headers_bytes hs)))

take_block-Reads : (b : Block) → IsSendable b → Reads take_block (counted (encode_block b)) b
unfolding take_block counted
take_block-Reads b v =
    subst (λ xs. Reads take_block xs b) (append-nil _)
      (Reads-bind take_bytes_len_u32 _ _ [] (encode_block b) b
        (take_bytes_len_u32-Reads (encode_block b) v.short)
        (lift-Reads _ b (
          ap (map_err canonical) (
            subst (λ xs. decode_block xs ≡ ok b) (append-nil _)
              (decode_block-encode_block b [] v.block_ok v.txs_fit v.txs_few)))))

-- The tag of a message, and what stands behind it.
abbrev pub tag_of : Message → ℕ
tag_of (hello g) = 1
tag_of (hello_ack g) = 2
tag_of (get_headers start max) = 10
tag_of (headers hs) = 11
tag_of (get_block id) = 12
tag_of (block_found id b) = 13
tag_of (block_not_found id) = 14
tag_of (ping nonce) = 20
tag_of (pong nonce) = 21

payload : Message → Bytes
payload (hello g) = greeting_bytes g
payload (hello_ack g) = greeting_bytes g
payload (get_headers start max) = start ++ to_be_bytes 4 max
payload (headers hs) = to_be_bytes 4 (length hs) ++ headers_bytes hs
payload (get_block id) = id
payload (block_found id b) = id ++ counted (encode_block b)
payload (block_not_found id) = id
payload (ping nonce) = to_be_bytes 8 nonce
payload (pong nonce) = to_be_bytes 8 nonce

take_payload-Reads : (m : Message) → IsMessage m → Reads (take_payload (tag_of m)) (payload m) m
unfolding take_payload payload
take_payload-Reads (hello g) v = Reads-map take_greeting hello _ g (take_greeting-Reads g v)
take_payload-Reads (hello_ack g) v = Reads-map take_greeting hello_ack _ g (take_greeting-Reads g v)
take_payload-Reads (get_headers start max) (h, u) =
    Reads-bind _ _ _ _ _ _ (take_hash256-Reads unexpected_eof start h)
      (Reads-map _ (get_headers start) _ max (take_u32_be-Reads unexpected_eof max u))
take_payload-Reads (headers hs) (v, n) =
    Reads-bind _ _ _ _ _ _ (take_u32_be-Reads unexpected_eof (length hs) n)
      (Reads-map _ headers _ hs (take_headers-Reads hs v))
take_payload-Reads (get_block id) v =
    Reads-map _ get_block _ id (take_hash256-Reads unexpected_eof id v)
take_payload-Reads (block_found id b) (h, v) =
    Reads-bind _ _ _ _ _ _ (take_hash256-Reads unexpected_eof id h)
      (Reads-map take_block (block_found id) _ b (take_block-Reads b v))
take_payload-Reads (block_not_found id) v =
    Reads-map _ block_not_found _ id (take_hash256-Reads unexpected_eof id v)
take_payload-Reads (ping nonce) v =
    Reads-map _ ping _ nonce (take_u64_be-Reads unexpected_eof nonce v)
take_payload-Reads (pong nonce) v =
    Reads-map _ pong _ nonce (take_u64_be-Reads unexpected_eof nonce v)

pub message_bytes : Message → Bytes
message_bytes m = magic ++ (to_be_bytes 2 version ++ (to_be_bytes 1 (tag_of m) ++ payload m))

tag_small : (m : Message) → tag_of m < 256
tag_small (hello g) = omega arith
tag_small (hello_ack g) = omega arith
tag_small (get_headers start max) = omega arith
tag_small (headers hs) = omega arith
tag_small (get_block id) = omega arith
tag_small (block_found id b) = omega arith
tag_small (block_not_found id) = omega arith
tag_small (ping nonce) = omega arith
tag_small (pong nonce) = omega arith

message_parser-Reads : (m : Message) → IsMessage m → Reads message_parser (message_bytes m) m
unfolding message_parser take_tagged message_bytes
message_parser-Reads m v = Reads-bind _ _ _ _ _ _ expect_magic-Reads (
    Reads-bind _ _ _ _ _ _ (take_u16_be-Reads version (omega arith))
      (Reads-bind _ _ _ _ _ _ (take_u8-Reads (tag_of m) (tag_small m)) (take_payload-Reads m v)))

encode_message-bytes : (m : Message) → IsMessage m → encode_message m ≡ ok (message_bytes m)
unfolding encode_message message_bytes payload
encode_message-bytes (hello g) v = push_greeting_bytes (prefix 1) g v ∙ simp append_assoc
encode_message-bytes (hello_ack g) v = push_greeting_bytes (prefix 2) g v ∙ simp append_assoc
encode_message-bytes (get_headers start max) v = simp append_assoc
encode_message-bytes (headers hs) (v, n) =
    rw (saturate_u32_fits (length hs) n) (push_headers_bytes _ hs v ∙ simp append_assoc)
encode_message-bytes (get_block id) v = simp append_assoc
encode_message-bytes (block_found id b) (h, v) =
    push_counted (prefix 13 ++ id) (encode_block b) v.short ∙ simp append_assoc
encode_message-bytes (block_not_found id) v = simp append_assoc
encode_message-bytes (ping nonce) v = simp append_assoc
encode_message-bytes (pong nonce) v = simp append_assoc

-- Every message of the Rust type whose length fields are exact is encoded without an error, and
-- `decode_message` returns it from those bytes, whatever bytes follow.
pub decode_message-encode_message :
    (m : Message) (rest : Bytes)
    → IsMessage m
    → (bytes : Bytes) × (encode_message m ≡ ok bytes) × (decode_message (bytes ++ rest) ≡ ok m)
unfolding decode_message
decode_message-encode_message m rest v = (
  message_bytes m,
  encode_message-bytes m v,
  run-Reads message_parser (message_bytes m) rest m (message_parser-Reads m v),
)
