-- ===== src/Net/Peer/Handlers.antt =====
-- EGG-Chain/crates/egg-net/src/peer.rs: the methods that answer messages.
use egg_project.Prelude.{
  ℕ, ◌+◌, min, max, Bool, true, false, not, ◌&&◌, Option, none, some, List, [], ◌∷◌, length, ltb,
  leb, ◌==◌, bytes_eq, if◌then◌else◌,
}
use egg_project.Prelude.Assoc.{lookup, contains_key, insert, remove}
use egg_project.Types.{Hash256, BlockHeader, Block}
use egg_project.Crypto.Hashing.{Blake3, hash_header}
use egg_project.Net.Message.{
  Greeting, Message, hello, hello_ack, get_headers, headers, get_block, block_found,
  block_not_found, ping, pong,
}
use egg_project.Net.Peer.Defs.{
  max_notfound_per_id, max_distinct_notfound_ids, penalty_unsolicited_reply,
  penalty_reply_without_known_header, penalty_block_id_mismatch, penalty_block_notfound,
  penalty_too_many_notfound_per_id, penalty_too_many_distinct_notfound, Role, HandshakeState, IdSet,
  PeerMachine, is_ready, is_banned, apply_decay, add_penalty, inbound, outbound, init, sent_hello,
  received_hello, ready,
}

abbrev pub is_outbound : Role → Bool
is_outbound outbound = true
is_outbound inbound = false

abbrev pub is_init : HandshakeState → Bool
is_init init = true
is_init sent_hello = false
is_init received_hello = false
is_init ready = false

unfoldable pub start : PeerMachine → List Message × PeerMachine
start m =
    if is_banned m
    then ([], m)
    else if is_outbound m.role && is_init m.hs
    then (hello m.local ∷ [], record m { hs = sent_hello })
    else ([], m)

unfoldable pub request_block : Hash256 → PeerMachine → Message × PeerMachine
request_block id m = (get_block id, record m { inflight_blocks = insert id tt m.inflight_blocks })

abbrev pub make_get_headers : Hash256 → PeerMachine → Message
make_get_headers start m = get_headers start m.sync_batch_max

unfoldable pub maybe_sync_kickoff : PeerMachine → List Message
maybe_sync_kickoff m =
    if m.sync_enabled && is_ready m then make_get_headers m.sync_cursor_start m ∷ [] else []

-- The answer, and the machine without the id in flight.
unfoldable pub hardening_on_block_reply : ℕ → Hash256 → PeerMachine → Bool × PeerMachine
unfolding add_penalty
hardening_on_block_reply now id m =
    if not (contains_key id m.inflight_blocks)
    then (false, add_penalty now penalty_unsolicited_reply "unsolicited block reply" m)
    else let m' = record m { inflight_blocks = remove id m.inflight_blocks } in
      if not (contains_key id m'.known_header_ids)
      then (
        false,
        add_penalty now penalty_reply_without_known_header "block reply without known header" m',
      )
      else (true, m')

-- `saturating_add` on `u8`, from 0 for an id that is not counted yet.
abbrev pub next_count : Option ℕ → ℕ
next_count none = 1
next_count (some n) = min (n + 1) 255

-- The escalation for one id.
unfoldable pub escalate_id : ℕ → ℕ → PeerMachine → PeerMachine
unfolding add_penalty
escalate_id now count m =
    if ltb max_notfound_per_id count
    then add_penalty now penalty_too_many_notfound_per_id "too many BlockNotFound per id" m
    else m

-- The id joins the distinct ones, and the machine is punished when they become too many.
unfoldable pub count_distinct : ℕ → Hash256 → PeerMachine → PeerMachine
unfolding add_penalty
count_distinct now id m =
    let prev = length m.notfound_distinct_ids in
    let m' = record m { notfound_distinct_ids = insert id tt m.notfound_distinct_ids } in
    if leb prev max_distinct_notfound_ids
      && ltb max_distinct_notfound_ids (length m'.notfound_distinct_ids)
    then add_penalty now penalty_too_many_distinct_notfound "too many distinct BlockNotFound ids" m'
    else m'

-- The escalation for many ids, when an id is counted for the first time.
unfoldable pub escalate_distinct : ℕ → Hash256 → ℕ → PeerMachine → PeerMachine
unfolding count_distinct
escalate_distinct now id count m = if count == 1 then count_distinct now id m else m

unfoldable pub hardening_on_notfound : ℕ → Hash256 → PeerMachine → PeerMachine
unfolding add_penalty escalate_id escalate_distinct
hardening_on_notfound now id m =
    let m1 = add_penalty now penalty_block_notfound "BlockNotFound" m in
    let count = next_count (lookup id m1.notfound_by_id) in
    let m2 = record m1 { notfound_by_id = insert id count m1.notfound_by_id } in
    escalate_distinct now id count (escalate_id now count m2)

unfoldable pub hardening_on_found : Hash256 → PeerMachine → PeerMachine
hardening_on_found id m = record m {
  notfound_by_id = remove id m.notfound_by_id;
  notfound_distinct_ids = remove id m.notfound_distinct_ids;
}

-- `mark_remote`, and the handshake is done.
unfoldable pub greeted : Greeting → PeerMachine → PeerMachine
greeted g m = record m { remote = some g; hs = ready }

module _ (b3 : Blake3) where
  -- `for h in headers.iter()`
  unfoldable pub note_headers : List BlockHeader → IdSet → IdSet
  note_headers [] known = known
  note_headers (h ∷ hs) known = note_headers hs (insert (hash_header b3 h) tt known)

  -- `headers.last()`
  unfoldable pub last_id : BlockHeader → List BlockHeader → Hash256
  last_id h [] = hash_header b3 h
  last_id h (h' ∷ hs) = last_id h' hs

  unfoldable pub on_headers : List BlockHeader → PeerMachine → List Message × PeerMachine
  unfolding note_headers last_id
  on_headers [] m = ([], m)
  on_headers (h ∷ hs) m =
      let m' = record m { known_header_ids = note_headers (h ∷ hs) m.known_header_ids } in
      if not m'.sync_enabled
      then ([], m')
      else let m'' = record m' { sync_cursor_start = last_id h hs } in
        (make_get_headers m''.sync_cursor_start m'' ∷ [], m'')

  unfoldable pub on_block_found : ℕ → Hash256 → Block → PeerMachine → PeerMachine
  unfolding hardening_on_block_reply add_penalty hardening_on_found
  on_block_found now id block m =
      let (accepted, m') = hardening_on_block_reply now id m in
      if not accepted
      then m'
      else if not (bytes_eq (hash_header b3 block.header) id)
      then add_penalty now penalty_block_id_mismatch "BlockFound id mismatch" m'
      else hardening_on_found id m'

  unfoldable pub on_block_not_found : ℕ → Hash256 → PeerMachine → PeerMachine
  unfolding hardening_on_block_reply hardening_on_notfound
  on_block_not_found now id m =
      let (accepted, m') = hardening_on_block_reply now id m in
      if not accepted then m' else hardening_on_notfound now id m'

  -- `match msg`
  unfoldable pub handle : ℕ → Message → PeerMachine → List Message × PeerMachine
  unfolding greeted maybe_sync_kickoff on_headers on_block_found on_block_not_found
  handle now (hello g) m = let m' = greeted g m in (hello_ack m.local ∷ maybe_sync_kickoff m', m')
  handle now (hello_ack g) m = let m' = greeted g m in (maybe_sync_kickoff m', m')
  handle now (get_headers start max) m = ([], m)
  handle now (headers hs) m = on_headers hs m
  handle now (get_block id) m = ([], m)
  handle now (block_found id block) m = ([], on_block_found now id block m)
  handle now (block_not_found id) m = ([], on_block_not_found now id m)
  handle now (ping nonce) m = (pong nonce ∷ [], m)
  handle now (pong nonce) m = ([], m)

  unfoldable pub on_message_at : ℕ → Message → PeerMachine → List Message × PeerMachine
  unfolding handle apply_decay
  on_message_at now msg m = if is_banned m then ([], m) else handle now msg (apply_decay now m)

-- `handle_get_headers`, of a `HeaderProvider`.
abbrev pub handle_get_headers : (Hash256 → ℕ → List BlockHeader) → Hash256 → ℕ → Message
handle_get_headers get_headers_after start max = headers (get_headers_after start max)
