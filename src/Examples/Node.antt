-- ===== src/Examples/Node.antt =====
-- Uses of the theorems on the sessions of the node.
use egg_project.Prelude.{◌+◌, ◌≡◌, ◌≢◌, ◌≤◌, refl, none, List, [], ◌∷◌, ◌++◌, ok, err, arith}
use egg_project.Prelude.Assoc.{contains_key, lookup, insert, remove}
use egg_project.Prelude.Int.{pos, i64_bits, i64_of_bits}
use egg_project.Bytes.{Bytes, to_be_bytes, from_be_bytes}
use egg_project.Types.{BlockHeader, Block}
use egg_project.Chain.Open.{open_or_init, expected_meta, write_genesis}
use egg_project.Chain.Defs.{ChainState, must_block_meta}
use egg_project.Kv.{mem_kv, mem_kv-KvLaws, mem_has, mem_put, mem_get}
use egg_project.Crypto.Hashing.{header_id, leading_zero_bits}
use egg_project.Crypto.Merkle.{merkle_root_txids}
use egg_project.Genesis.{genesis_fields, validate_chainspec}
use egg_project.Net.Message.{Message, hello_ack, headers, block_found, ping, take_header}
use egg_project.Net.Frame.{encode_frame, decode_frame}
use egg_project.Node.Defs.{Read, chunk, failed, timed_out, Input, Output}
use egg_project.Node.Download.{sync}
use egg_project.Node.Run.{new_syncer, run_syncer_once, run_responder_once}
use egg_project.Node.Syncer.{Syncer}
use egg_project.Examples.Data.{sum_hash, spec1}
use egg_project.Examples.Messages.{greeting1}
use egg_project.Examples.Opened.{state1}
use egg_project.Net.Peer.Defs.{enable_header_sync}
use egg_project.Canonical.Base.{saturate_u32, expect_magic, take_i64_be}
use egg_project.Utf8.{is_blank, is_utf8}
use egg_project.Canonical.Spec.{encode_chainspec}
use egg_project.Store.Ops.{get_tip}
use egg_project.Canonical.Header.{encode_block_header, decode_block_header}
use egg_project.Cursor.Base.{take_bytes, take_u32_be, take_hash256, take_u64_be}
use egg_project.Store.Records.{
  decode_block_meta, encode_block_meta, decode_children, encode_children,
}
use egg_project.Prelude.Words.{saturating_add, saturating_sub}
use egg_project.Canonical.Blocks.{encode_block, decode_block, take_txs}
use egg_project.Chain.Connect.{connect_children}
use egg_project.Chain.Validate.{check_block, check_parent, check_genesis}
use egg_project.Prelude.{take, drop, bytes_eq}
use egg_project.Exec.Rules.{Ensures}
use egg_project.Chain.Lasting.{HasTip, tip_stored}
use egg_project.Chain.Placed.{HasBlock, ingest_block_places}
use egg_project.Chain.Ingest.{ingest_block, ingest_header, mine_and_append_one}
use egg_project.Chain.Fresh.{genesis_view}
use egg_project.Mempool.Defs.{empty}
use egg_project.Net.Message.{get_block, get_headers}
use egg_project.Net.Peer.Defs.{ready, new, inbound}
use egg_project.Node.Defs.{max_block_retries, send, out_of_fuel}
use egg_project.Node.Session.{Session, writing}
use egg_project.Node.Run.{session_of}
use egg_project.Node.Responder.{serve, respond, provided}
use egg_project.Prelude.{All}
use egg_project.Crypto.Hashing.{hash_header}
use egg_project.Node.Received.{received}
use egg_project.Node.Complete.{sync_complete}
use egg_project.Node.Bound.{requests-run_syncer_once}
use egg_project.Node.Requests.{requests}
use egg_project.Node.Stream.{serve_all, end_of_stream, respond_stream}
use egg_project.Node.Ends.{sessions_end}
use egg_project.Node.Answers.{heard, block_reply, serve_answers}
use egg_project.Examples.Data.{hash_of}
use egg_project.Examples.Messages.{ping_bytes, ping_framed}
use egg_project.Examples.Opened.{state1_facts}

-- A header and a block on top of the genesis block.
abbrev header2 : BlockHeader
header2 = record {
  parent = header_id sum_hash (genesis_fields spec1);
  height = 1;
  timestamp_utc = pos 1700000001;
  nonce = 1;
  merkle_root = merkle_root_txids sum_hash [];
  pow_difficulty_bits = 0;
}

abbrev block2 : Block
block2 = record { header = header2; txs = [] }

unfoldable frame_bytes : Message → Bytes
unfolding encode_frame
frame_bytes msg = elim (encode_frame msg) [ ok f ↦ f | err e ↦ [] ]

abbrev quick_output : Output
quick_output = record { sent = []; write_fault = λ n. none; clock = λ n. n; readings = 0 }

-- What a peer with one block sends, a message in each outcome of `read`.
abbrev peer_input : Input
peer_input = record {
  reads =
      chunk (frame_bytes (hello_ack greeting1))
      ∷ failed timed_out
      ∷ chunk (frame_bytes (headers (header2 ∷ [])))
      ∷ chunk (frame_bytes (headers []))
      ∷ chunk (frame_bytes (block_found (header_id sum_hash header2) block2))
      ∷ [];
  buf = [];
}

-- The state of an opened chain, in a form that computes.
unfoldable state2 : ChainState mem_kv.State
unfolding open_or_init get_tip validate_chainspec is_blank expected_meta encode_chainspec mem_get
    mem_has mem_put lookup contains_key insert write_genesis bytes_eq to_be_bytes
    encode_block_header i64_bits encode_block encode_block_meta merkle_root_txids
state2 = elim (open_or_init mem_kv sum_hash 5 spec1 []).0 [ ok st ↦ st | err e ↦ state1 ]

abbrev syncer2 : Syncer mem_kv.State
syncer2 = new_syncer mem_kv sum_hash 5 (λ m. m) 100 quick_output state2

synced : (sync mem_kv 5 sum_hash (λ m. m) 20 peer_input syncer2).0 ≡ ok tt
unfolding sync frame_bytes state2 enable_header_sync saturate_u32 decode_frame from_be_bytes
    take_bytes take_u32_be take_hash256 take_u64_be is_utf8 take_header decode_block_header
    expect_magic take_i64_be leading_zero_bits i64_of_bits decode_block_meta saturating_add
    decode_block take_txs decode_children encode_children must_block_meta saturating_sub
    connect_children remove check_block check_parent check_genesis
synced = refl

state2_facts : HasBlock mem_kv state2 state2.meta.genesis_id × HasTip mem_kv state2
unfolding state2
state2_facts = (refl, refl)

sync_complete_example :
    All
      (λ h.
        HasBlock mem_kv
          (sync mem_kv 5 sum_hash (λ m. m) 20 peer_input syncer2).1.chain_state
          (hash_header sum_hash h))
      (received 20 peer_input)
sync_complete_example =
    sync_complete mem_kv mem_kv-KvLaws 5 sum_hash (λ m. m) 20 peer_input syncer2 state2_facts.0
      synced

requests-run_syncer_once_example :
    requests
      (header_id sum_hash header2)
      (run_syncer_once mem_kv sum_hash 5 (λ m. m) 100 20 peer_input quick_output spec1 []).1.0.sent
    ≤ 1 + max_block_retries
requests-run_syncer_once_example =
    requests-run_syncer_once mem_kv sum_hash 5 (λ m. m) 100 20 peer_input quick_output spec1 []
      (header_id sum_hash header2) refl

-- The frame of `Ping { nonce: 258 }` in two parts, with a timeout between them.
abbrev cut_ping : List Read
cut_ping =
    chunk (take 7 (0 ∷ 0 ∷ 0 ∷ 19 ∷ ping_bytes))
    ∷ failed timed_out
    ∷ chunk (drop 7 (0 ∷ 0 ∷ 0 ∷ 19 ∷ ping_bytes))
    ∷ []

abbrev session1 : Session
session1 = session_of (new inbound greeting1) quick_output

respond_stream_example :
    respond mem_kv state1 sum_hash 5
      (record { reads = cut_ping ++ end_of_stream; buf = [] })
      session1
    ≡ serve_all mem_kv state1 sum_hash (ping 258 ∷ []) session1
respond_stream_example =
    respond_stream mem_kv state1 sum_hash 5 (ping 258 ∷ []) cut_ping [] session1
      (tt, (refl, (tt, tt)))
      ((0 ∷ 0 ∷ 0 ∷ 19 ∷ ping_bytes), [], omega arith, ping_framed, refl, refl) (omega arith)

abbrev small_input : Input
small_input = record { reads = chunk (0 ∷ 0 ∷ []) ∷ failed timed_out ∷ []; buf = 7 ∷ [] }

sessions_end_example :
    ((run_responder_once mem_kv sum_hash 5 6 small_input quick_output spec1 []).0 ≢ err out_of_fuel)
    × ((run_syncer_once mem_kv sum_hash 5 (λ m. m) 100 6 small_input quick_output spec1 []).0
        ≢ err out_of_fuel)
sessions_end_example =
    sessions_end mem_kv sum_hash 5 (λ m. m) 100 6 small_input quick_output spec1 [] (omega arith)

abbrev ready_session : Session
ready_session = record session1 { peer = record session1.peer { hs = ready } }

serve_answers_example :
    (serve mem_kv state1 sum_hash (get_block (hash_of 5)) ready_session
      ≡ writing
          (send (
            block_reply
              (hash_of 5)
              ((genesis_view state1.meta (genesis_fields spec1)).block (hash_of 5))))
          (heard ready_session))
    × (serve mem_kv state1 sum_hash (get_headers (hash_of 6) 10) ready_session
        ≡ writing (send (headers (provided mem_kv state1 (hash_of 6) 10))) (heard ready_session))
serve_answers_example =
    serve_answers mem_kv state1 sum_hash (genesis_view state1.meta (genesis_fields spec1))
      (hash_of 5) (hash_of 6) 10 ready_session state1_facts.1 refl refl

tip_stored_example :
    HasTip mem_kv (ingest_block mem_kv 5 sum_hash block2 state2).1
    × HasTip mem_kv (ingest_header mem_kv sum_hash header2 state2).1
    × HasTip mem_kv (mine_and_append_one mem_kv 5 sum_hash empty (pos 9) 0 state2).1.0
tip_stored_example =
    tip_stored mem_kv mem_kv-KvLaws 5 sum_hash block2 header2 empty (pos 9) 0 state2 state2_facts.1

ingest_block_places_example :
    Ensures
      (λ _ x. HasBlock mem_kv x (header_id sum_hash header2))
      (λ _. Unit {0})
      (ingest_block mem_kv 5 sum_hash block2 state2)
ingest_block_places_example =
    ingest_block_places mem_kv mem_kv-KvLaws 5 sum_hash block2 state2 state2_facts.0

-- The headers that the peer sends.
received-header2 : received 20 peer_input ≡ header2 ∷ []
unfolding received frame_bytes decode_frame saturate_u32 to_be_bytes from_be_bytes take_bytes
    bytes_eq take_u32_be take_hash256 take_u64_be is_utf8 encode_block_header merkle_root_txids
    take_header decode_block_header expect_magic take_i64_be decode_block encode_block take_txs
    i64_bits i64_of_bits header_id
received-header2 = refl
