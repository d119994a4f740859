-- ===== src/Canonical/Tx.antt =====
-- `encode_tx`, `decode_tx`, `encode_tx_body` and `decode_tx_body`.
use egg_project.Prelude.{
  ◌+◌, ◌^◌, ◌<◌, ◌≡◌, ap, ◌∙◌, ◌++◌, append_assoc, length, length-append, Result, ok, ltb, arith,
  if◌then◌else◌,
}
use egg_project.Bytes.{Bytes, to_be_bytes, length-to_be_bytes}
use egg_project.Types.{Transaction, IsTransaction}
use egg_project.Cursor.Base.{
  cursor, Parser, pure, fail, ◌>>=◌, ◌>>◌, run, get_position, get_remaining,
}
use egg_project.Cursor.Reads.{
  Reads, bind_ok, Reads-bind, Reads-map, run-Reads, take_u32_be-Reads, take_hash256-Reads,
}
use egg_project.Canonical.Base.{
  CanonicalError, unexpected_eof, magic_tx, magic_tbd, take, take_u32_be, take_hash256,
  expect_magic, push_u32_be, saturate_u32, saturate_u32_fits,
}
use egg_project.Canonical.Base.Reads.{expect_magic-Reads, counted}
use native.Mathlib.Nat.{add_assoc}

unfoldable pub encode_tx : Transaction → Bytes
encode_tx tx =
    let payload_len_u32 = saturate_u32 (length tx.payload) in
    let out = magic_tx ++ tx.id in push_u32_be out payload_len_u32 ++ tx.payload

-- The length, the test against what remains, and the payload: the end of both decoders.
unfoldable pub take_payload : Parser CanonicalError Bytes
take_payload = do
  payload_len ← take_u32_be
  rem ← get_remaining
  at ← get_position
  if ltb rem payload_len then fail (unexpected_eof at payload_len rem) else take payload_len

abbrev pub tx_parser : Parser CanonicalError Transaction
tx_parser = do
  expect_magic magic_tx
  id ← take_hash256
  payload ← take_payload
  pure (record { id = id; payload = payload })

unfoldable pub decode_tx : Bytes → Result CanonicalError Transaction
unfolding take_payload
decode_tx = run tx_parser

unfoldable pub encode_tx_body : Bytes → Bytes
encode_tx_body payload =
    let len_u32 = saturate_u32 (length payload) in push_u32_be magic_tbd len_u32 ++ payload

abbrev tx_body_parser : Parser CanonicalError Bytes
tx_body_parser = do expect_magic magic_tbd; take_payload

unfoldable pub decode_tx_body : Bytes → Result CanonicalError Bytes
unfolding take_payload
decode_tx_body = run tx_body_parser

pub take_payload-Reads :
    (xs : Bytes) → length xs < 2 ^ 32 → Reads take_payload (to_be_bytes 4 (length xs) ++ xs) xs
unfolding take_payload
take_payload-Reads xs h = record {
  at = λ pos rest.
      rw (append_assoc, length-append)
        (bind_ok take_u32_be _ _ _ (length xs)
            ((take_u32_be-Reads unexpected_eof (length xs) h).at pos (xs ++ rest))
          ∙ counted _ _ xs rest
          ∙ ap (λ n. ok (xs, cursor n rest)) (add_assoc pos _ (length xs)));
}

encode_tx-encoding :
    (tx : Transaction)
    → length tx.payload < 2 ^ 32
    → encode_tx tx ≡ magic_tx ++ (tx.id ++ (to_be_bytes 4 (length tx.payload) ++ tx.payload))
unfolding encode_tx
encode_tx-encoding tx h = rw (saturate_u32_fits _ h) (simp append_assoc)

pub length-encode_tx :
    (tx : Transaction)
    → IsTransaction tx
    → length tx.payload < 2 ^ 32
    → length (encode_tx tx) ≡ 44 + length tx.payload
length-encode_tx tx v h =
    rw (encode_tx-encoding tx h)
      (simp (length-append, length-to_be_bytes, v.id_ok.len) (omega arith))

pub tx_parser-Reads :
    (tx : Transaction)
    → IsTransaction tx
    → length tx.payload < 2 ^ 32
    → Reads tx_parser (encode_tx tx) tx
tx_parser-Reads tx v h = rw (encode_tx-encoding tx h) (
    Reads-bind _ _ _ _ _ _ (expect_magic-Reads magic_tx (omega arith)) (
      Reads-bind _ _ _ _ _ _ (take_hash256-Reads _ _ v.id_ok)
        (Reads-map _ _ _ _ (take_payload-Reads tx.payload h))))

-- `decode_tx` returns the transaction that `encode_tx` wrote, when the payload is shorter than
-- 2 ^ 32 bytes, whatever bytes follow.
pub decode_tx-encode_tx :
    (tx : Transaction) (rest : Bytes)
    → IsTransaction tx
    → length tx.payload < 2 ^ 32
    → decode_tx (encode_tx tx ++ rest) ≡ ok tx
unfolding decode_tx
decode_tx-encode_tx tx rest v h =
    run-Reads tx_parser (encode_tx tx) rest tx (tx_parser-Reads tx v h)

tx_body_parser-Reads :
    (payload : Bytes)
    → length payload < 2 ^ 32
    → Reads tx_body_parser (encode_tx_body payload) payload
unfolding encode_tx_body
tx_body_parser-Reads payload h = rw (saturate_u32_fits _ h) (
    Reads-bind _ _ _ _ _ _ (expect_magic-Reads magic_tbd (omega arith))
      (take_payload-Reads payload h))

-- `decode_tx_body` returns the payload that `encode_tx_body` wrote, when it is shorter than
-- 2 ^ 32 bytes, whatever bytes follow.
pub decode_tx_body-encode_tx_body :
    (payload rest : Bytes)
    → length payload < 2 ^ 32
    → decode_tx_body (encode_tx_body payload ++ rest) ≡ ok payload
unfolding decode_tx_body
decode_tx_body-encode_tx_body payload rest h =
    run-Reads tx_body_parser (encode_tx_body payload) rest payload (tx_body_parser-Reads payload h)
