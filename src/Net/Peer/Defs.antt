-- ===== src/Net/Peer/Defs.antt =====
-- EGG-Chain/crates/egg-net/src/peer.rs: the state machine of one peer. An `Instant` is a number of
-- nanoseconds on a clock, and the calls that read the clock take it as `now`. The score is an `i32`
-- that is never negative. The sets and the map are those of Prelude/Assoc.
use Prim.Native.String.{String}
use egg_project.Prelude.{
  ℕ, ◌+◌, ◌-◌, ◌*◌, ◌/◌, ◌%◌, ◌^◌, min, max, Bool, true, false, not, Option, none, some, [], ltb,
  leb, ◌==◌, if◌then◌else◌,
}
use egg_project.Prelude.Assoc.{Assoc, insert}
use egg_project.Types.{Hash256}
use egg_project.Net.Message.{Greeting}

abbrev pub max_notfound_per_id : ℕ
max_notfound_per_id = 2

abbrev pub max_distinct_notfound_ids : ℕ
max_distinct_notfound_ids = 16

abbrev pub penalty_ban_threshold : ℕ
penalty_ban_threshold = 100

-- `Duration::from_secs(10)`, in seconds.
abbrev pub penalty_decay_every : ℕ
penalty_decay_every = 10

abbrev pub penalty_decay_step : ℕ
penalty_decay_step = 10

abbrev pub penalty_unsolicited_reply : ℕ
penalty_unsolicited_reply = 55

abbrev pub penalty_reply_without_known_header : ℕ
penalty_reply_without_known_header = 65

abbrev pub penalty_block_id_mismatch : ℕ
penalty_block_id_mismatch = 70

abbrev pub penalty_block_notfound : ℕ
penalty_block_notfound = 5

abbrev pub penalty_too_many_notfound_per_id : ℕ
penalty_too_many_notfound_per_id = 25

abbrev pub penalty_too_many_distinct_notfound : ℕ
penalty_too_many_distinct_notfound = 40

abbrev pub penalty_timeout : ℕ
penalty_timeout = 8

pub data Role : Type 0 where
  inbound outbound : Role

pub data HandshakeState : Type 0 where
  init sent_hello received_hello ready : HandshakeState

-- The text of a ban: its score and its reason.
pub record Ban : Type 0 where
  pub score : ℕ
  pub reason : String

abbrev pub IdSet : Type 0
IdSet = Assoc (Unit {0})

-- `LocalInfo` and `RemoteInfo` have the fields of a greeting.
pub record PeerMachine : Type 0 where
  pub role : Role
  pub hs : HandshakeState
  pub local : Greeting
  pub remote : Option Greeting
  pub sync_enabled : Bool
  pub sync_cursor_start : Hash256
  pub sync_batch_max : ℕ
  pub banned : Option Ban
  pub known_header_ids : IdSet
  pub inflight_blocks : IdSet
  pub notfound_by_id : Assoc ℕ
  pub notfound_distinct_ids : IdSet
  pub penalty_score : ℕ
  pub penalty_last_decay : ℕ

abbrev pub new : Role → Greeting → ℕ → PeerMachine
new role local now = record {
  role = role;
  hs = init;
  local = local;
  remote = none;
  sync_enabled = false;
  sync_cursor_start = local.tip.hash;
  sync_batch_max = 2000;
  banned = none;
  known_header_ids = insert local.tip.hash tt [];
  inflight_blocks = [];
  notfound_by_id = [];
  notfound_distinct_ids = [];
  penalty_score = 0;
  penalty_last_decay = now;
}

unfoldable pub enable_header_sync : ℕ → PeerMachine → PeerMachine
enable_header_sync batch_max m = record m {
  sync_enabled = true;
  sync_batch_max = max batch_max 1;
  sync_cursor_start = m.local.tip.hash;
}

abbrev pub is_ready_state : HandshakeState → Bool
is_ready_state ready = true
is_ready_state init = false
is_ready_state sent_hello = false
is_ready_state received_hello = false

abbrev pub is_ready : PeerMachine → Bool
is_ready m = is_ready_state m.hs

abbrev pub is_set : {A : Type 0} → Option A → Bool
is_set none = false
is_set (some a) = true

abbrev pub is_banned : PeerMachine → Bool
is_banned m = is_set m.banned

-- `ban`: the first reason stays.
unfoldable pub ban : Ban → PeerMachine → PeerMachine
ban reason m = if not (is_banned m) then record m { banned = some reason } else m

-- `self.penalty_score - dec`, not below 0, for `dec = (steps as i32).saturating_mul(10)`. From 2 ^ 31
-- steps on, which is more than 680 years, `steps as i32` may be negative, and a difference past the
-- largest `i32` wraps around below 0.
unfoldable pub decayed : ℕ → ℕ → ℕ
decayed steps score =
    if ltb (steps % 2 ^ 32) (2 ^ 31)
    then score - min (steps % 2 ^ 32 * penalty_decay_step) (2 ^ 31 - 1)
    else let sum = score + min ((2 ^ 32 - steps % 2 ^ 32) * penalty_decay_step) (2 ^ 31) in
      if ltb sum (2 ^ 31) then sum else 0

abbrev pub decay_steps : ℕ → PeerMachine → ℕ
decay_steps now m = (now - m.penalty_last_decay) / 10 ^ 9 / penalty_decay_every

unfoldable pub apply_decay : ℕ → PeerMachine → PeerMachine
unfolding decayed
apply_decay now m =
    if ltb now m.penalty_last_decay
    then record m { penalty_last_decay = now }
    else if decay_steps now m == 0
    then m
    else record m {
      penalty_score = decayed (decay_steps now m) m.penalty_score;
      penalty_last_decay = now;
    }

-- `saturating_add` on `i32`.
abbrev pub add_i32 : ℕ → ℕ → ℕ
add_i32 a b = min (a + b) (2 ^ 31 - 1)

-- The points added, and the ban from the threshold on.
unfoldable pub punish : ℕ → String → PeerMachine → PeerMachine
unfolding ban
punish points why m =
    let score = add_i32 m.penalty_score points in
    let m' = record m { penalty_score = score } in
    if leb penalty_ban_threshold score then ban (record { score = score; reason = why }) m' else m'

unfoldable pub add_penalty : ℕ → ℕ → String → PeerMachine → PeerMachine
unfolding punish apply_decay
add_penalty now points why m = if is_banned m then m else punish points why (apply_decay now m)

unfoldable pub note_timeout : ℕ → PeerMachine → PeerMachine
unfolding add_penalty
note_timeout now = add_penalty now penalty_timeout "timeout"
