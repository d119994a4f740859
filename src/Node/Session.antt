-- ===== src/Node/Session.antt =====
-- EGG-Chain/crates/egg-node/src/lib.rs: what both sessions do with the machine of the peer.
use egg_project.Prelude.{ℕ, Bool, true, false, ok, err, if◌then◌else◌}
use egg_project.Types.{Hash256}
use egg_project.Exec.{Exec, ◌>>=◌, ◌>>◌}
use egg_project.Crypto.Hashing.{Blake3}
use egg_project.Net.Message.{Message}
use egg_project.Net.Peer.Defs.{PeerMachine, is_banned, note_timeout}
use egg_project.Net.Peer.Handlers.{start, request_block, on_message_at}
use egg_project.Node.Defs.{
  NodeError, protocol, peer_banned, Output, Writing, instant_now, send, send_all,
}

-- What a session changes: the half of the connection that is written, and the machine of the peer.
pub record Session : Type 0 where
  pub output : Output
  pub peer : PeerMachine

abbrev pub Serving : Type 0 → Type 0
Serving A = Exec Session NodeError A

-- `if b { taken } else { other }`
unfoldable pub either : {S E A : Type 0} → Bool → Exec S E A → Exec S E A → Exec S E A
either true taken other = taken
either false taken other = other

module _ {A : Type 0} where
  -- A call of `io` that writes, or of the clock.
  unfoldable pub writing : Writing A → Serving A
  writing m r = let (a, o) = m r.output in (a, record r { output = o })

-- `peer.on_message(msg.clone())`, the answers sent, and the check of the ban.
unfoldable pub deliver_at : Blake3 → Message → ℕ → Serving (Unit {0})
unfolding on_message_at writing send_all
deliver_at b3 msg now r =
    let (out, peer') = on_message_at b3 now msg r.peer in
    writing (send_all out) (record r { peer = peer' })

unfoldable pub check_ban : Serving (Unit {0})
check_ban r = (if is_banned r.peer then err (protocol (peer_banned r.peer.banned)) else ok tt, r)

unfoldable pub deliver : Blake3 → Message → Serving (Unit {0})
unfolding writing instant_now deliver_at check_ban ◌>>=◌ ◌>>◌
deliver b3 msg = do now ← writing instant_now; deliver_at b3 msg now; check_ban

-- `peer.request_block(id)`, and the request sent.
unfoldable pub ask_block : Hash256 → Serving (Unit {0})
unfolding request_block writing send
ask_block id r =
    let (req, peer') = request_block id r.peer in writing (send req) (record r { peer = peer' })

-- `peer.start()`, and its messages sent.
unfoldable pub greet : Serving (Unit {0})
unfolding start writing send_all
greet r = let (out, peer') = start r.peer in writing (send_all out) (record r { peer = peer' })

unfoldable pub note_timeout_at : ℕ → Serving (Unit {0})
unfolding note_timeout
note_timeout_at now r = (ok tt, record r { peer = note_timeout now r.peer })

-- `peer.note_timeout()`, and the check of the ban.
unfoldable pub count_timeout : Serving (Unit {0})
unfolding writing instant_now note_timeout_at check_ban ◌>>=◌ ◌>>◌
count_timeout = do now ← writing instant_now; note_timeout_at now; check_ban
