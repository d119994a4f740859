-- ===== src/Net/Peer/Steps.antt =====
-- What holds of every machine that can be reached, and of a banned one.
use egg_project.Prelude.{ℕ, ◌≡◌, refl, true, false, ◌&&◌, Bool-cases, inl, inr, arith}
use egg_project.Types.{Hash256}
use egg_project.Crypto.Hashing.{Blake3}
use egg_project.Net.Message.{Greeting, Message}
use egg_project.Net.Peer.Defs.{
  PeerMachine, Role, HandshakeState, init, sent_hello, received_hello, ready, is_ready_state, new,
  is_banned, note_timeout, enable_header_sync,
}
use egg_project.Net.Peer.Handlers.{is_outbound, is_init, start, request_block, on_message_at}
use egg_project.Net.Peer.Bans.{IsSound, IsTime, carry, add_penalty-IsSound, on_message_at-IsSound}

module _ (b3 : Blake3) where
  -- What may happen to a machine; the clock is read at each call that needs it.
  pub data Step : PeerMachine → PeerMachine → Type 0 where
    started : (m : PeerMachine) → Step m (start m).1
    requested : (id : Hash256) (m : PeerMachine) → Step m (request_block id m).1
    messaged :
        (now : ℕ) (msg : Message) (m : PeerMachine)
        → IsTime now
        → Step m (on_message_at b3 now msg m).1
    timed_out : (now : ℕ) (m : PeerMachine) → IsTime now → Step m (note_timeout now m)

  -- The machines that a new one may become, with or without `enable_header_sync`.
  pub data Reachable : PeerMachine → Type 0 where
    created : (role : Role) (local : Greeting) (now : ℕ) → Reachable (new role local now)
    synced :
        (role : Role) (local : Greeting) (now max : ℕ)
        → Reachable (enable_header_sync max (new role local now))
    later : (m m' : PeerMachine) → Reachable m → Step m m' → Reachable m'

  new-IsSound : (role : Role) (local : Greeting) (now : ℕ) → IsSound (new role local now)
  new-IsSound role local now = record {
    calm = λ e. omega arith;
    fits = omega arith;
    handshake = refl;
    named = λ b e. absurd (cc e);
  }

  start-IsSound : (m : PeerMachine) → IsSound m → IsSound (start m).1
  unfolding start
  start-IsSound m v = elim (Bool-cases (is_banned m)) [
    | inl e ↦ rw e v
    | inr e ↦ elim (Bool-cases (is_outbound m.role && is_init m.hs)) [
      | inl f ↦ rw (e, f) (carry m _ refl refl (not_ready m.hs (both m f)) refl v)
      | inr f ↦ rw (e, f) v
    ]
  ]
    where
      both : (m : PeerMachine) → (is_outbound m.role && is_init m.hs) ≡ true → is_init m.hs ≡ true
      both m f = ground (arith, f)

      not_ready : (h : HandshakeState) → is_init h ≡ true → false ≡ is_ready_state h
      not_ready init e = refl
      not_ready sent_hello e = refl
      not_ready received_hello e = refl
      not_ready ready e = e

  Step-IsSound : (m m' : PeerMachine) → Step m m' → IsSound m → IsSound m'
  Step-IsSound m m' (started _) v = start-IsSound m v
  Step-IsSound m m' (requested id _) v = unfold request_block in carry m _ refl refl refl refl v
  Step-IsSound m m' (messaged now msg _ t) v = on_message_at-IsSound b3 now msg m t v
  Step-IsSound m m' (timed_out now _ t) v = unfold note_timeout in add_penalty-IsSound now _ _ m t v

  -- Of every machine that can be reached: as long as it is not banned it has fewer than 100 points,
  -- a ban names 100 points or more, the score is an `i32`, and the handshake is done exactly when the
  -- other side's greeting is known; if fewer than 2 ^ 31 steps of 10 seconds pass on the clock.
  pub Reachable-IsSound : (m : PeerMachine) → Reachable m → IsSound m
  Reachable-IsSound m (created role local now) = new-IsSound role local now
  Reachable-IsSound m (synced role local now max) =
      unfold enable_header_sync in
      carry (new role local now) _ refl refl refl refl (new-IsSound role local now)
  Reachable-IsSound m' (later m _ r s) = Step-IsSound m m' s (Reachable-IsSound m r)
