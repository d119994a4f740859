-- ===== src/Node/Requests.antt =====
-- How often a block is asked for, in what a session has sent.
use egg_project.Prelude.{
  ℕ, ◌+◌, ◌≡◌, refl, ap, ◌∙◌, Bool, true, false, not, ◌&&◌, List, [], ◌∷◌, ◌++◌, length, Result, ok,
  err, bytes_eq, ◌⊎◌, inl, inr, All, Result-cases, Option-cases, Bool-cases, arith, if◌then◌else◌,
}
use egg_project.Types.{Hash256, BlockHeader}
use egg_project.Exec.{◌>>=◌, ◌>>◌, continue}
use egg_project.Crypto.Hashing.{Blake3}
use egg_project.Net.Message.{
  Message, hello, hello_ack, get_headers, headers, get_block, block_found, block_not_found, ping,
  pong,
}
use egg_project.Net.Frame.{encode_frame}
use egg_project.Net.Peer.Defs.{PeerMachine, is_banned, is_ready, apply_decay}
use egg_project.Net.Peer.Handlers.{
  on_message_at, handle, maybe_sync_kickoff, on_headers, greeted, start, is_outbound, is_init,
}
use egg_project.Node.Defs.{
  NodeError, io, frame, Output, Writing, written, write_frame, encoded, send, send_all,
}

abbrev pub asks_for : Hash256 → Message → ℕ
asks_for id (get_block x) = if bytes_eq x id then 1 else 0
asks_for id (hello g) = 0
asks_for id (hello_ack g) = 0
asks_for id (get_headers start max) = 0
asks_for id (headers hs) = 0
asks_for id (block_found x block) = 0
asks_for id (block_not_found x) = 0
asks_for id (ping nonce) = 0
asks_for id (pong nonce) = 0

-- How many of the messages ask for the block.
unfoldable pub requests : Hash256 → List Message → ℕ
requests id [] = 0
requests id (m ∷ ms) = asks_for id m + requests id ms

pub requests-snoc :
    (id : Hash256) (ms : List Message) (m : Message)
    → requests id (ms ++ m ∷ []) ≡ requests id ms + asks_for id m
unfolding requests
requests-snoc id [] m = omega arith
requests-snoc id (x ∷ ms) m = omega (arith, requests-snoc id ms m)

-- A message that asks for no block.
abbrev pub IsOther : Message → Type 0
IsOther m = (id : Hash256) → asks_for id m ≡ 0

abbrev pub SameRequests : Output → Output → Type 0
SameRequests o o' = (id : Hash256) → requests id o'.sent ≡ requests id o.sent

pub SameRequests-trans : (a b c : Output) → SameRequests a b → SameRequests b c → SameRequests a c
SameRequests-trans a b c p q id = q id ∙ p id

pub send-cases :
    (m : Message) (o : Output)
    → (send m o ≡ (ok tt, record o { sent = o.sent ++ m ∷ [] }))
      ⊎ ((e : NodeError) × (send m o ≡ (err e, o)))
unfolding send encoded write_frame written ◌>>=◌
send-cases m o = elim (Result-cases (encode_frame m)) [
  | inl (f, q) ↦ elim (Option-cases (o.write_fault (length o.sent))) [
    | inl p ↦ inl (rw (q, p))
    | inr (k, p) ↦ inr (io k, rw (q, p))
  ]
  | inr (e, q) ↦ inr (frame e, rw q)
]

send-other : (m : Message) (o : Output) → IsOther m → SameRequests o (send m o).1
send-other m o h id = elim (send-cases m o) [
  | inl p ↦ ap (λ r. requests id r.1.sent) p ∙ requests-snoc id o.sent m ∙ omega (arith, h id)
  | inr (e, p) ↦ ap (λ r. requests id r.1.sent) p
]

-- A message that is sent before others.
send_then :
    (m : Message) (k : Writing (Unit {0})) (o : Output)
    → IsOther m
    → ((x : Output) → SameRequests x (k x).1)
    → SameRequests o ((send m >> k) o).1
unfolding ◌>>◌ ◌>>=◌
send_then m k o h next = go (send m o).0 (send m o).1 (send-other m o h)
  where
    go :
        (r : Result NodeError (Unit {0})) (x : Output)
        → SameRequests o x
        → SameRequests o (continue r (λ _. k) x).1
    go (ok a) x p = SameRequests-trans o x (k x).1 p (next x)
    go (err e) x p = p

pub send_all-other :
    (ms : List Message) (o : Output) → All IsOther ms → SameRequests o (send_all ms o).1
unfolding send_all
send_all-other [] o h = λ id. refl
send_all-other (m ∷ ms) o h = send_then m (send_all ms) o h.0 (λ x. send_all-other ms x h.1)

All-if : (b : Bool) (m : Message) → IsOther m → All IsOther (if b then m ∷ [] else [])
All-if true m h = (h, tt)
All-if false m h = tt

maybe_sync_kickoff-IsOther : (m : PeerMachine) → All IsOther (maybe_sync_kickoff m)
unfolding maybe_sync_kickoff
maybe_sync_kickoff-IsOther m = All-if (m.sync_enabled && is_ready m) _ (λ id. refl)

on_headers-IsOther :
    (b3 : Blake3) (hs : List BlockHeader) (m : PeerMachine) → All IsOther (on_headers b3 hs m).0
unfolding on_headers
on_headers-IsOther b3 [] m = tt
on_headers-IsOther b3 (h ∷ hs) m = elim (Bool-cases (not m.sync_enabled)) [
  | inl e ↦ rw e tt
  | inr e ↦ rw e ((λ id. refl), tt)
]

handle-IsOther :
    (b3 : Blake3) (now : ℕ) (msg : Message) (m : PeerMachine) → All IsOther (handle b3 now msg m).0
unfolding handle
handle-IsOther b3 now (hello g) m = ((λ id. refl), maybe_sync_kickoff-IsOther (greeted g m))
handle-IsOther b3 now (hello_ack g) m = maybe_sync_kickoff-IsOther (greeted g m)
handle-IsOther b3 now (get_headers start max) m = tt
handle-IsOther b3 now (headers hs) m = on_headers-IsOther b3 hs m
handle-IsOther b3 now (get_block id) m = tt
handle-IsOther b3 now (block_found id block) m = tt
handle-IsOther b3 now (block_not_found id) m = tt
handle-IsOther b3 now (ping nonce) m = ((λ id. refl), tt)
handle-IsOther b3 now (pong nonce) m = tt

pub on_message-IsOther :
    (b3 : Blake3) (now : ℕ) (msg : Message) (m : PeerMachine)
    → All IsOther (on_message_at b3 now msg m).0
unfolding on_message_at
on_message-IsOther b3 now msg m = elim (Bool-cases (is_banned m)) [
  | inl e ↦ rw e tt
  | inr e ↦ rw e (handle-IsOther b3 now msg (apply_decay now m))
]

pub start-IsOther : (m : PeerMachine) → All IsOther (start m).0
unfolding start
start-IsOther m = elim (Bool-cases (is_banned m)) [
  | inl e ↦ rw e tt
  | inr e ↦ elim (Bool-cases (is_outbound m.role && is_init m.hs)) [
    | inl f ↦ rw (e, f) ((λ id. refl), tt)
    | inr f ↦ rw (e, f) tt
  ]
]
