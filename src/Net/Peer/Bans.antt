-- ===== src/Net/Peer/Bans.antt =====
-- What holds of a peer's machine whatever messages arrive: scores, bans and the handshake.
use Prim.Native.String.{String}
use egg_project.Prelude.{
  ℕ, ◌*◌, ◌^◌, ◌<◌, ◌≤◌, ◌≡◌, refl, sym, ap, ◌∙◌, subst, Bool, true, false, not, some, none, List,
  [], ◌∷◌, ltb, leb, leb→le, Bool-cases, ◌==◌, inl, inr, arith, if◌then◌else◌,
}
use egg_project.Types.{Hash256, BlockHeader, Block}
use egg_project.Prelude.Assoc.{contains_key, insert, remove, lookup}
use egg_project.Crypto.Hashing.{Blake3}
use egg_project.Net.Message.{
  Greeting, Message, hello, hello_ack, get_headers, headers, get_block, block_found,
  block_not_found, ping, pong,
}
use egg_project.Net.Peer.Defs.{
  PeerMachine, Ban, is_ready, is_set, is_banned, ban, decayed, decay_steps, apply_decay, add_i32,
  punish, add_penalty, penalty_block_notfound, penalty_ban_threshold,
}
use egg_project.Net.Peer.Handlers.{
  hardening_on_block_reply, escalate_id, count_distinct, escalate_distinct, hardening_on_notfound,
  hardening_on_found, greeted, on_headers, on_block_found, on_block_not_found, handle,
  on_message_at, next_count,
}

-- A clock on which fewer than 2 ^ 31 steps of 10 seconds have passed.
abbrev pub IsTime : ℕ → Type 0
IsTime now = now < 2 ^ 31 * 10 ^ 10

pub record IsSound (m : PeerMachine) : Type 0 where
  pub calm : is_banned m ≡ false → m.penalty_score < penalty_ban_threshold
  pub fits : m.penalty_score < 2 ^ 31
  pub handshake : is_ready m ≡ is_set m.remote
  pub named : (b : Ban) → m.banned ≡ some b → penalty_ban_threshold ≤ b.score

decayed-le : (steps score : ℕ) → steps < 2 ^ 31 → decayed steps score ≤ score
unfolding decayed
decayed-le steps score h = ground arith

steps_few : (now : ℕ) (m : PeerMachine) → IsTime now → decay_steps now m < 2 ^ 31
steps_few now m h = omega (arith, h)

-- A machine that differs in its score and its clock only, with no more points.
lower-IsSound :
    (m : PeerMachine) (score clock : ℕ)
    → IsSound m
    → score ≤ m.penalty_score
    → IsSound (record m { penalty_score = score; penalty_last_decay = clock })
lower-IsSound m score clock v h = record {
  calm = λ e. omega (arith, v.calm e, h);
  fits = omega (arith, v.fits, h);
  handshake = v.handshake;
  named = v.named;
}

apply_decay-IsSound :
    (now : ℕ) (m : PeerMachine) → IsTime now → IsSound m → IsSound (apply_decay now m)
unfolding apply_decay
apply_decay-IsSound now m t v = elim (Bool-cases (ltb now m.penalty_last_decay)) [
  | inl e ↦ rw e (lower-IsSound m m.penalty_score now v (omega arith))
  | inr e ↦ elim (Bool-cases (decay_steps now m == 0)) [
    | inl f ↦ rw (e, f) v
    | inr f ↦
        rw (e, f)
          (lower-IsSound m _ now v
            (decayed-le (decay_steps now m) m.penalty_score (steps_few now m t)))
  ]
]

apply_decay-banned : (now : ℕ) (m : PeerMachine) → (apply_decay now m).banned ≡ m.banned
unfolding apply_decay
apply_decay-banned now m = ground arith

punish-IsSound :
    (points : ℕ) (why : String) (m : PeerMachine)
    → m.banned ≡ none
    → IsSound m
    → IsSound (punish points why m)
unfolding punish ban
punish-IsSound points why m e v =
    elim (Bool-cases (leb penalty_ban_threshold (add_i32 m.penalty_score points))) [
      | inl q ↦
          rw (q, e)
            (record {
              calm = λ x. absurd (cc x);
              fits = omega arith;
              handshake = v.handshake;
              named = λ b f.
                  let same : record { score = add_i32 m.penalty_score points; reason = why } ≡ b =
                    cc f in
                  subst (λ x. penalty_ban_threshold ≤ x.score) same
                    (leb→le penalty_ban_threshold _ q);
            })
      | inr q ↦ rw q (record {
        calm = λ x. ground (arith, q);
        fits = omega arith;
        handshake = v.handshake;
        named = v.named;
      })
    ]

not_banned : (m : PeerMachine) → is_banned m ≡ false → m.banned ≡ none
not_banned m e = ground arith

pub add_penalty-IsSound :
    (now points : ℕ) (why : String) (m : PeerMachine)
    → IsTime now
    → IsSound m
    → IsSound (add_penalty now points why m)
unfolding add_penalty
add_penalty-IsSound now points why m t v = elim (Bool-cases (is_banned m)) [
  | inl e ↦ rw e v
  | inr e ↦ rw e (
      punish-IsSound points why (apply_decay now m) (apply_decay-banned now m ∙ not_banned m e)
        (apply_decay-IsSound now m t v))
]

-- A machine with the same ban, score and handshake.
pub carry :
    (m m' : PeerMachine)
    → m'.banned ≡ m.banned
    → m'.penalty_score ≡ m.penalty_score
    → is_ready m' ≡ is_ready m
    → m'.remote ≡ m.remote
    → IsSound m
    → IsSound m'
carry m m' b p h r v = record {
  calm = λ e. subst (λ n. n < penalty_ban_threshold) (sym p) (v.calm (ap is_set (sym b) ∙ e));
  fits = subst (λ n. n < 2 ^ 31) (sym p) v.fits;
  handshake = h ∙ v.handshake ∙ ap is_set (sym r);
  named = λ x e. v.named x (sym b ∙ e);
}

block_reply-IsSound :
    (now : ℕ) (id : Hash256) (m : PeerMachine)
    → IsTime now
    → IsSound m
    → IsSound (hardening_on_block_reply now id m).1
unfolding hardening_on_block_reply
block_reply-IsSound now id m t v = elim (Bool-cases (contains_key id m.inflight_blocks)) [
  | inl e ↦ elim (Bool-cases (contains_key id m.known_header_ids)) [
    | inl f ↦ rw (e, f) (carry m _ refl refl refl refl v)
    | inr f ↦
        rw (e, f)
          (add_penalty-IsSound now _ _ (record m { inflight_blocks = remove id m.inflight_blocks })
            t (carry m _ refl refl refl refl v))
  ]
  | inr e ↦ rw e (add_penalty-IsSound now _ _ m t v)
]

escalate_id-IsSound :
    (now count : ℕ) (m : PeerMachine) → IsTime now → IsSound m → IsSound (escalate_id now count m)
unfolding escalate_id
escalate_id-IsSound now count m t v = elim (Bool-cases (ltb 2 count)) [
  | inl e ↦ rw e (add_penalty-IsSound now _ _ m t v)
  | inr e ↦ rw e v
]

count_distinct-IsSound :
    (now : ℕ) (id : Hash256) (m : PeerMachine)
    → IsTime now
    → IsSound m
    → IsSound (count_distinct now id m)
unfolding count_distinct
count_distinct-IsSound now id m t v = go _
  where
    m' : PeerMachine
    m' = record m { notfound_distinct_ids = insert id tt m.notfound_distinct_ids }

    go :
        (b : Bool)
        → IsSound (if b then add_penalty now 40 "too many distinct BlockNotFound ids" m' else m')
    go true = add_penalty-IsSound now _ _ m' t (carry m m' refl refl refl refl v)
    go false = carry m m' refl refl refl refl v

escalate_distinct-IsSound :
    (now : ℕ) (id : Hash256) (count : ℕ) (m : PeerMachine)
    → IsTime now
    → IsSound m
    → IsSound (escalate_distinct now id count m)
unfolding escalate_distinct
escalate_distinct-IsSound now id count m t v = elim (Bool-cases (count == 1)) [
  | inl e ↦ rw e (count_distinct-IsSound now id m t v)
  | inr e ↦ rw e v
]

on_notfound-IsSound :
    (now : ℕ) (id : Hash256) (m : PeerMachine)
    → IsTime now
    → IsSound m
    → IsSound (hardening_on_notfound now id m)
unfolding hardening_on_notfound
on_notfound-IsSound now id m t v =
    let m1 = add_penalty now penalty_block_notfound "BlockNotFound" m in
    let count = next_count (lookup id m1.notfound_by_id) in
    let m2 = record m1 { notfound_by_id = insert id count m1.notfound_by_id } in
    let noted =
      carry m1 m2 refl refl refl refl
        (add_penalty-IsSound now penalty_block_notfound "BlockNotFound" m t v) in
    escalate_distinct-IsSound now id count (escalate_id now count m2) t
      (escalate_id-IsSound now count m2 t noted)

greeted-IsSound : (g : Greeting) (m : PeerMachine) → IsSound m → IsSound (greeted g m)
unfolding greeted
greeted-IsSound g m v = record { calm = v.calm; fits = v.fits; handshake = refl; named = v.named }

module _ (b3 : Blake3) where
  on_headers-IsSound :
      (hs : List BlockHeader) (m : PeerMachine) → IsSound m → IsSound (on_headers b3 hs m).1
  unfolding on_headers
  on_headers-IsSound [] m v = v
  on_headers-IsSound (h ∷ hs) m v = elim (Bool-cases m.sync_enabled) [
    | inl e ↦ rw e (carry m _ refl refl refl refl v)
    | inr e ↦ rw e (carry m _ refl refl refl refl v)
  ]

  on_block_found-IsSound :
      (now : ℕ) (id : Hash256) (b : Block) (m : PeerMachine)
      → IsTime now
      → IsSound m
      → IsSound (on_block_found b3 now id b m)
  unfolding on_block_found hardening_on_found
  on_block_found-IsSound now id b m t v = go _ _
    where
      reply : PeerMachine
      reply = (hardening_on_block_reply now id m).1

      sound : IsSound reply
      sound = block_reply-IsSound now id m t v

      go :
          (x y : Bool)
          → IsSound (
              if not x
              then reply
              else if not y
              then add_penalty now 70 "BlockFound id mismatch" reply
              else hardening_on_found id reply)
      go false y = sound
      go true false = add_penalty-IsSound now _ _ reply t sound
      go true true = carry reply _ refl refl refl refl sound

  on_block_not_found-IsSound :
      (now : ℕ) (id : Hash256) (m : PeerMachine)
      → IsTime now
      → IsSound m
      → IsSound (on_block_not_found b3 now id m)
  unfolding on_block_not_found
  on_block_not_found-IsSound now id m t v = go _
    where
      reply : PeerMachine
      reply = (hardening_on_block_reply now id m).1

      go : (x : Bool) → IsSound (if not x then reply else hardening_on_notfound now id reply)
      go false = block_reply-IsSound now id m t v
      go true = on_notfound-IsSound now id reply t (block_reply-IsSound now id m t v)

  handle-IsSound :
      (now : ℕ) (msg : Message) (m : PeerMachine)
      → IsTime now
      → IsSound m
      → IsSound (handle b3 now msg m).1
  unfolding handle
  handle-IsSound now (hello g) m t v = greeted-IsSound g m v
  handle-IsSound now (hello_ack g) m t v = greeted-IsSound g m v
  handle-IsSound now (get_headers s n) m t v = v
  handle-IsSound now (headers hs) m t v = on_headers-IsSound hs m v
  handle-IsSound now (get_block id) m t v = v
  handle-IsSound now (block_found id b) m t v = on_block_found-IsSound now id b m t v
  handle-IsSound now (block_not_found id) m t v = on_block_not_found-IsSound now id m t v
  handle-IsSound now (ping n) m t v = v
  handle-IsSound now (pong n) m t v = v

  pub on_message_at-IsSound :
      (now : ℕ) (msg : Message) (m : PeerMachine)
      → IsTime now
      → IsSound m
      → IsSound (on_message_at b3 now msg m).1
  unfolding on_message_at
  on_message_at-IsSound now msg m t v = elim (Bool-cases (is_banned m)) [
    | inl e ↦ rw e v
    | inr e ↦ rw e (handle-IsSound now msg (apply_decay now m) t (apply_decay-IsSound now m t v))
  ]
