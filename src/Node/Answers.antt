-- ===== src/Node/Answers.antt =====
-- What the responder answers to a peer that is ready.
use egg_project.Prelude.{
  ℕ, ◌+◌, ◌≡◌, refl, ◌∙◌, true, false, Option, none, some, [], ok, Option-cases, inl, inr, arith,
}
use egg_project.Types.{Hash256, Block}
use egg_project.Exec.{Exec, ◌>>=◌, ◌>>◌}
use egg_project.Kv.{KvStore}
use egg_project.Crypto.Hashing.{Blake3}
use egg_project.Net.Message.{Message, get_headers, headers, get_block, block_found, block_not_found}
use egg_project.Net.Peer.Defs.{PeerMachine, is_banned, is_ready, apply_decay}
use egg_project.Net.Peer.Handlers.{on_message_at, handle}
use egg_project.Store.View.{ChainView, Implements}
use egg_project.Chain.Defs.{ChainState}
use egg_project.Node.Defs.{instant_now, send, send_all}
use egg_project.Node.Session.{Session, writing, either, deliver_at, check_ban, deliver}
use egg_project.Node.Responder.{provided, asked, answer_block, answer, answer_ready, serve}

-- The answer to a request for a block.
abbrev pub block_reply : Hash256 → Option Block → Message
block_reply id none = block_not_found id
block_reply id (some b) = block_found id b

-- The session in which the answer is sent: the clock was read, and the points decayed.
abbrev pub heard : Session → Session
heard r = record r {
  output = record r.output { readings = r.output.readings + 1 };
  peer = apply_decay (r.output.clock r.output.readings) r.peer;
}

decay_same :
    (now : ℕ) (m : PeerMachine)
    → (is_banned (apply_decay now m) ≡ is_banned m) × (is_ready (apply_decay now m) ≡ is_ready m)
unfolding apply_decay
decay_same now m = ground arith

-- A machine that may go on passes the check.
allowed : (r : Session) → is_banned r.peer ≡ false → check_ban r ≡ (ok tt, r)
unfolding check_ban
allowed r e = rw e

decayed_allowed : (r : Session) → is_banned r.peer ≡ false → check_ban (heard r) ≡ (ok tt, heard r)
decayed_allowed r e =
    allowed (heard r) ((decay_same (r.output.clock r.output.readings) r.peer).0 ∙ e)

then_ok :
    {S E A B : Type 0}
    → (m : Exec S E A) → (n : Exec S E B) → {s s' : S} → {a : A} → m s ≡ (ok a, s')
    → (m >> n) s ≡ n s'
unfolding ◌>>◌ ◌>>=◌
then_ok m n e = rw e

module _ (b3 : Blake3) (msg : Message)
    (quiet : (now : ℕ) (m : PeerMachine) → handle b3 now msg m ≡ ([], m)) where
  heard_at :
      (now : ℕ) (r : Session)
      → is_banned r.peer ≡ false
      → deliver_at b3 msg now r ≡ (ok tt, record r { peer = apply_decay now r.peer })
  unfolding deliver_at on_message_at writing send_all
  heard_at now r e = rw (e, quiet now (apply_decay now r.peer))

  heard_request : (r : Session) → is_banned r.peer ≡ false → deliver b3 msg r ≡ (ok tt, heard r)
  unfolding deliver writing instant_now ◌>>=◌
  heard_request r e =
      then_ok (deliver_at b3 msg (r.output.clock r.output.readings)) check_ban (
        heard_at (r.output.clock r.output.readings)
          (record r { output = record r.output { readings = r.output.readings + 1 } }) e)
      ∙ decayed_allowed r e

module _ (kv : KvStore) (st : ChainState kv.State) (b3 : Blake3) where
  answered :
      (msg : Message) (r : Session)
      → ((now : ℕ) (m : PeerMachine) → handle b3 now msg m ≡ ([], m))
      → is_banned r.peer ≡ false
      → is_ready r.peer ≡ true
      → serve kv st b3 msg r ≡ answer kv st msg (heard r)
  unfolding serve answer_ready ◌>>=◌ ◌>>◌
  answered msg r h e ready =
      rw (
        heard_request b3 msg h r e,
        (decay_same (r.output.clock r.output.readings) r.peer).1,
        ready,
      )

  answer_block_view :
      (v : ChainView) (id : Hash256) (r : Session)
      → Implements kv st.store v
      → answer_block kv st id r ≡ writing (send (block_reply id (v.block id))) r
  unfolding answer_block asked either ◌>>=◌
  answer_block_view v id r i = elim (Option-cases (v.block id)) [
    | inl e ↦ rw (i.has_block_at id, e)
    | inr (b, e) ↦ rw (i.has_block_at id, e, i.block_at id, e)
  ]

  -- To a peer that is not banned and has done the handshake: a request for headers is answered with
  -- the headers that `get_headers_after` gives, with none where it fails, and a request for a block
  -- with the block that the store has under the id, or with `BlockNotFound`, on a store that
  -- implements a view.
  pub serve_answers :
      (v : ChainView) (id start : Hash256) (max : ℕ) (r : Session)
      → Implements kv st.store v
      → is_banned r.peer ≡ false
      → is_ready r.peer ≡ true
      → (serve kv st b3 (get_block id) r ≡ writing (send (block_reply id (v.block id))) (heard r))
        × (serve kv st b3 (get_headers start max) r
            ≡ writing (send (headers (provided kv st start max))) (heard r))
  serve_answers v id start max r i e ready = (
    answered (get_block id) r (λ now m. unfold handle in refl) e ready
        ∙ (unfold answer in answer_block_view v id (heard r) i),
    answered (get_headers start max) r (λ now m. unfold handle in refl) e ready
        ∙ (unfold answer in refl),
  )
