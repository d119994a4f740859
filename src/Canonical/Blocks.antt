-- ===== src/Canonical/Blocks.antt =====
-- `encode_block` and `decode_block`.
use egg_project.Prelude.{
  ℕ, zero, suc, ◌+◌, ◌^◌, ◌<◌, ◌≡◌, sym, ◌∙◌, subst, List, [], ◌∷◌, ◌++◌, append_assoc, append-nil,
  length, All, Result, ok, err, arith,
}
use egg_project.Bytes.{Bytes, to_be_bytes}
use egg_project.Types.{BlockHeader, Transaction, Block, IsTransaction, IsHeader, IsBlock}
use egg_project.Cursor.Base.{Parser, pure, fail, ◌>>=◌, ◌>>◌, run}
use egg_project.Cursor.Reads.{
  Reads, Reads-pure, Reads-bind, Reads-map, run-Reads, take_bytes-Reads_len, take_u32_be-Reads,
}
use egg_project.Canonical.Base.{
  CanonicalError, unexpected_eof, magic_blk, take, take_u32_be, expect_magic, push_u32_be,
  saturate_u32, saturate_u32_fits,
}
use egg_project.Canonical.Base.Reads.{expect_magic-Reads}
use egg_project.Canonical.Header.{
  encode_block_header, decode_block_header, decode_block_header-encode_block_header,
  length-encode_block_header,
}
use egg_project.Canonical.Tx.{
  encode_tx, decode_tx, take_payload, decode_tx-encode_tx, length-encode_tx, take_payload-Reads,
}

-- The `for` loop of `encode_block`.
unfoldable pub push_txs : Bytes → List Transaction → Bytes
push_txs out [] = out
push_txs out (tx ∷ txs) =
    let tx_bytes = encode_tx tx in
    let tx_len_u32 = saturate_u32 (length tx_bytes) in
    push_txs (push_u32_be out tx_len_u32 ++ tx_bytes) txs

unfoldable pub encode_block : Block → Bytes
unfolding push_txs
encode_block b =
    let out = magic_blk ++ encode_block_header b.header in
    let tx_count_u32 = saturate_u32 (length b.txs) in push_txs (push_u32_be out tx_count_u32) b.txs

-- The result of an inner decoder, under `?`.
abbrev pub lift : {E A : Type 0} → Result E A → Parser E A
lift (ok a) = pure a
lift (err e) = fail e

-- The body of the loop of `decode_block`.
unfoldable pub take_tx : Parser CanonicalError Transaction
unfolding take_payload
take_tx = do tx_bytes ← take_payload; lift (decode_tx tx_bytes)

-- `for _ in 0..tx_count`
unfoldable pub take_txs : ℕ → Parser CanonicalError (List Transaction)
take_txs zero = pure []
take_txs (suc n) = do tx ← take_tx; txs ← take_txs n; pure (tx ∷ txs)

unfoldable pub block_parser : Parser CanonicalError Block
block_parser = do
  expect_magic magic_blk
  hdr_bytes ← take 100
  header ← lift (decode_block_header hdr_bytes)
  tx_count ← take_u32_be
  txs ← take_txs tx_count
  pure (record { header = header; txs = txs })

unfoldable pub decode_block : Bytes → Result CanonicalError Block
unfolding block_parser
decode_block = run block_parser

-- The sizes at which the 32-bit length fields are exact.
abbrev pub FitsU32 : Transaction → Type 0
FitsU32 tx = 44 + length tx.payload < 2 ^ 32

txs_encoding : List Transaction → Bytes
txs_encoding [] = []
txs_encoding (tx ∷ txs) =
    (to_be_bytes 4 (length (encode_tx tx)) ++ encode_tx tx) ++ txs_encoding txs

length-encode_tx_fits :
    (tx : Transaction) → IsTransaction tx → FitsU32 tx → length (encode_tx tx) < 2 ^ 32
length-encode_tx_fits tx v f = omega (arith, length-encode_tx tx v (omega arith))

push_txs_cons :
    (out : Bytes) (tx : Transaction) (txs : List Transaction)
    → IsTransaction tx
    → FitsU32 tx
    → push_txs out (tx ∷ txs)
      ≡ push_txs (out ++ (to_be_bytes 4 (length (encode_tx tx)) ++ encode_tx tx)) txs
unfolding push_txs
push_txs_cons out tx txs v f = rw (saturate_u32_fits _ (length-encode_tx_fits tx v f), append_assoc)

push_txs-encoding :
    (txs : List Transaction) (out : Bytes)
    → All IsTransaction txs
    → All FitsU32 txs
    → push_txs out txs ≡ out ++ txs_encoding txs
unfolding txs_encoding
push_txs-encoding [] out v f = unfold push_txs in sym (append-nil out)
push_txs-encoding (tx ∷ txs) out (v, vs) (f, fs) =
    push_txs_cons out tx txs v f ∙ push_txs-encoding txs _ vs fs ∙ append_assoc out _ _

lift_ok-Reads : {E A : Type 0} (r : Result E A) (a : A) → r ≡ ok a → Reads (lift r) [] a
lift_ok-Reads r a h = rw (h, lift) (Reads-pure a)

take_tx-Reads :
    (tx : Transaction)
    → IsTransaction tx
    → FitsU32 tx
    → Reads take_tx (to_be_bytes 4 (length (encode_tx tx)) ++ encode_tx tx) tx
unfolding take_tx
take_tx-Reads tx v f =
    subst (λ xs. Reads take_tx xs tx) (append-nil _)
      (Reads-bind take_payload _ _ [] (encode_tx tx) tx
        (take_payload-Reads (encode_tx tx) (length-encode_tx_fits tx v f))
        (lift_ok-Reads _ tx (
          subst (λ xs. decode_tx xs ≡ ok tx) (append-nil _)
            (decode_tx-encode_tx tx [] v (omega arith)))))

take_txs-Reads :
    (txs : List Transaction)
    → All IsTransaction txs
    → All FitsU32 txs
    → Reads (take_txs (length txs)) (txs_encoding txs) txs
unfolding txs_encoding
take_txs-Reads [] v f = unfold take_txs in Reads-pure []
take_txs-Reads (tx ∷ txs) (v, vs) (f, fs) = step (take_txs-Reads txs vs fs)
  where
    step :
        Reads (take_txs (length txs)) (txs_encoding txs) txs
        → Reads (take_txs (suc (length txs))) (txs_encoding (tx ∷ txs)) (tx ∷ txs)
    step ih =
        unfold take_txs in
        Reads-bind take_tx _ _ _ tx (tx ∷ txs) (take_tx-Reads tx v f)
          (Reads-map (take_txs (length txs)) (λ ts. tx ∷ ts) _ txs ih)

encode_block-encoding :
    (b : Block)
    → IsBlock b
    → All FitsU32 b.txs
    → length b.txs < 2 ^ 32
    → encode_block b
      ≡ magic_blk
        ++ (encode_block_header b.header ++ (to_be_bytes 4 (length b.txs) ++ txs_encoding b.txs))
unfolding encode_block
encode_block-encoding b v f n =
    rw (saturate_u32_fits _ n) (push_txs-encoding b.txs _ v.txs_ok f ∙ simp append_assoc)

header-Reads :
    {B : Type 0} (h : BlockHeader) (f : BlockHeader → Parser CanonicalError B) (xs : Bytes) (b : B)
    → IsHeader h
    → Reads (f h) xs b
    → Reads
        (take 100 >>= λ hdr_bytes. lift (decode_block_header hdr_bytes) >>= f)
        (encode_block_header h ++ xs)
        b
header-Reads h f xs b v r =
    Reads-bind (take 100) _ _ xs (encode_block_header h) b
      (take_bytes-Reads_len unexpected_eof 100 _ (length-encode_block_header h v))
      (Reads-bind (lift (decode_block_header (encode_block_header h))) f [] xs h b
        (lift_ok-Reads _ h (
          subst (λ ys. decode_block_header ys ≡ ok h) (append-nil _)
            (decode_block_header-encode_block_header h [] v)))
        r)

block_parser-Reads :
    (b : Block)
    → IsBlock b
    → All FitsU32 b.txs
    → length b.txs < 2 ^ 32
    → Reads block_parser (encode_block b) b
block_parser-Reads b v f n = rw (encode_block-encoding b v f n) (
    unfold block_parser in
    Reads-bind _ _ _ _ _ _ (expect_magic-Reads magic_blk (omega arith)) (
      header-Reads b.header _ _ b v.header_ok (
        Reads-bind _ _ _ _ _ _ (take_u32_be-Reads _ _ n) (
          Reads-map (take_txs (length b.txs)) (λ ts. record { header = b.header; txs = ts }) _ b.txs
            (take_txs-Reads b.txs v.txs_ok f)))))

-- `decode_block` returns the block that `encode_block` wrote, whatever bytes follow, when it has
-- fewer than 2 ^ 32 transactions and each has an encoding shorter than 2 ^ 32 bytes.
pub decode_block-encode_block :
    (b : Block) (rest : Bytes)
    → IsBlock b
    → All FitsU32 b.txs
    → length b.txs < 2 ^ 32
    → decode_block (encode_block b ++ rest) ≡ ok b
unfolding decode_block
decode_block-encode_block b rest v f n =
    run-Reads block_parser (encode_block b) rest b (block_parser-Reads b v f n)
