-- ===== src/Examples/Peers.antt =====
-- Uses of the theorems on the state machine of a peer, and a test.
use egg_project.Prelude.{◌≡◌, refl, some, arith}
use egg_project.Prelude.Assoc.{contains_key, lookup}
use egg_project.Net.Message.{block_not_found}
use egg_project.Net.Peer.Defs.{PeerMachine, new, outbound}
use egg_project.Net.Peer.Handlers.{on_message_at}
use egg_project.Net.Peer.Bans.{IsSound}
use egg_project.Net.Peer.Steps.{Reachable, created, later, messaged, Reachable-IsSound}
use egg_project.Examples.Data.{sum_hash, hash_of}
use egg_project.Examples.Messages.{greeting1}

abbrev fresh : PeerMachine
fresh = new outbound greeting1 0

-- Two blocks that nobody asked for.
abbrev unsolicited : PeerMachine
unsolicited =
    (on_message_at sum_hash 6 (block_not_found (hash_of 2))
      (on_message_at sum_hash 5 (block_not_found (hash_of 1)) fresh).1).1

unsolicited-Reachable : Reachable sum_hash unsolicited
unsolicited-Reachable =
    later _ _
      (later _ _ (created outbound greeting1 0)
        (messaged 5 (block_not_found (hash_of 1)) fresh (omega arith)))
      (messaged 6 (block_not_found (hash_of 2)) _ (omega arith))

Reachable-IsSound_example : IsSound unsolicited
Reachable-IsSound_example = Reachable-IsSound sum_hash unsolicited unsolicited-Reachable

-- 55 points twice are more than 100.
unsolicited_banned :
    unsolicited.banned ≡ some (record { score = 110; reason = "unsolicited block reply" })
unfolding on_message_at contains_key lookup
unsolicited_banned = refl
