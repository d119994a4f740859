-- ===== src/Node/Settles.antt =====
-- The rounds of the calls outside the loops of the two sessions.
use egg_project.Prelude.{
  ℕ, ◌≡◌, ◌≢◌, refl, Bool, true, false, not, Option, none, some, List, [], ◌∷◌, length, Result, ok,
  err, map_err,
}
use egg_project.Types.{Hash256}
use egg_project.Exec.{Exec, ◌>>=◌, ◌>>◌}
use egg_project.Exec.Yields.{Gives, Yields, Any, Yields-bind, Yields-then}
use egg_project.Kv.{KvStore}
use egg_project.Crypto.Hashing.{Blake3}
use egg_project.Net.Message.{
  Message, hello, hello_ack, get_headers, headers, get_block, block_found, block_not_found, ping,
  pong,
}
use egg_project.Net.Peer.Defs.{is_banned, is_ready}
use egg_project.Net.Peer.Handlers.{request_block, on_message_at, start, handle_get_headers}
use egg_project.Store.Records.{StoreError}
use egg_project.Store.Ops.{has_block, get_block as stored_block}
use egg_project.Chain.Defs.{ChainStateError, ChainState, store_error}
use egg_project.Node.Defs.{
  NodeError, ErrorKind, chain, encoded, written, write_frame, out_of_fuel, frame, Output, Writing,
  instant_now, send, send_all,
}
use egg_project.Node.Session.{
  Session, writing, either, deliver_at, check_ban, deliver, ask_block, greet, note_timeout_at,
  count_timeout,
}
use egg_project.Node.Responder
use egg_project.Node.Responder.{provided, answer_block, answer, answer_ready, serve}
use egg_project.Bytes.{Bytes}
use egg_project.Net.Frame.{FrameError, encode_frame}

-- The errors of all but the loops.
abbrev pub IsSettled : NodeError → Type 0
IsSettled e = e ≢ out_of_fuel

abbrev pub Settles : {S A : Type 0} → Exec S NodeError A → Type 0
Settles m = Yields Any IsSettled m

module _ {S A B : Type 0} where
  pub Settles-bind :
      (m : Exec S NodeError A) (f : A → Exec S NodeError B)
      → Settles m
      → ((a : A) → Settles (f a))
      → Settles (m >>= f)
  Settles-bind m f hm hf = Yields-bind Any Any IsSettled m f hm (λ a _. hf a)

  pub Settles-then :
      (m : Exec S NodeError A) (n : Exec S NodeError B) → Settles m → Settles n → Settles (m >> n)
  Settles-then = Yields-then Any Any IsSettled

pub Settles-either :
    {S A : Type 0} (b : Bool) (m n : Exec S NodeError A)
    → Settles m
    → Settles n
    → Settles (either b m n)
unfolding either
Settles-either true m n hm hn = hm
Settles-either false m n hm hn = hn

encoded-Settles : (msg : Message) → Settles (encoded msg)
unfolding encoded
encoded-Settles msg = record { yields = λ o. go (encode_frame msg) }
  where
    go : (r : Result FrameError Bytes) → Gives Any IsSettled (map_err frame r)
    go (ok f) = tt
    go (err e) = λ q. cc q

written_settles :
    (msg : Message) (k : Option ErrorKind) (o : Output) → Gives Any IsSettled (written msg k o).0
unfolding written
written_settles msg none o = tt
written_settles msg (some k) o = λ q. cc q

write_frame-Settles : (msg : Message) (f : Bytes) → Settles (write_frame msg f)
unfolding write_frame
write_frame-Settles msg f = record {
  yields = λ o. written_settles msg (o.write_fault (length o.sent)) o;
}

send-Settles : (msg : Message) → Settles (send msg)
unfolding send
send-Settles msg = Settles-bind _ _ (encoded-Settles msg) (write_frame-Settles msg)

send_all-Settles : (ms : List Message) → Settles (send_all ms)
unfolding send_all
send_all-Settles [] = record { yields = λ o. tt }
send_all-Settles (m ∷ ms) = record {
  yields = (Settles-then _ _ (send-Settles m) (send_all-Settles ms)).yields;
}

pub instant_now-Settles : Settles instant_now
unfolding instant_now
instant_now-Settles = record { yields = λ o. tt }

pub writing-Settles : {A : Type 0} (m : Writing A) → Settles m → Settles (writing m)
unfolding writing
writing-Settles m h = record { yields = λ r. h.yields r.output }

deliver_at-Settles : (b3 : Blake3) (msg : Message) (now : ℕ) → Settles (deliver_at b3 msg now)
unfolding deliver_at writing
deliver_at-Settles b3 msg now = record {
  yields = λ r. (send_all-Settles (on_message_at b3 now msg r.peer).0).yields r.output;
}

check_ban-Settles : Settles check_ban
check_ban-Settles = record { yields = λ r. go r (is_banned r.peer) refl }
  where
    go : (r : Session) (b : Bool) → is_banned r.peer ≡ b → Gives Any IsSettled (check_ban r).0
    go r true e = unfold check_ban in rw e (λ q. cc q)
    go r false e = unfold check_ban in rw e tt

pub deliver-Settles : (b3 : Blake3) (msg : Message) → Settles (deliver b3 msg)
unfolding deliver
deliver-Settles b3 msg =
    Settles-bind _ _ (writing-Settles _ instant_now-Settles)
      λ now. Settles-then _ _ (deliver_at-Settles b3 msg now) check_ban-Settles

pub ask_block-Settles : (id : Hash256) → Settles (ask_block id)
unfolding ask_block writing
ask_block-Settles id = record {
  yields = λ r. (send-Settles (request_block id r.peer).0).yields r.output;
}

pub greet-Settles : Settles greet
unfolding greet writing
greet-Settles = record { yields = λ r. (send_all-Settles (start r.peer).0).yields r.output }

note_timeout_at-Settles : (now : ℕ) → Settles (note_timeout_at now)
unfolding note_timeout_at
note_timeout_at-Settles now = record { yields = λ r. tt }

pub count_timeout-Settles : Settles count_timeout
unfolding count_timeout
count_timeout-Settles =
    Settles-bind _ _ (writing-Settles _ instant_now-Settles)
      λ now. Settles-then _ _ (note_timeout_at-Settles now) check_ban-Settles

pub of_chain :
    {E A : Type 0} (f : E → ChainStateError) (r : Result E A)
    → Gives Any IsSettled (map_err (λ e. chain (f e)) r)
of_chain f (ok a) = tt
of_chain f (err e) = λ q. cc q

module _ (kv : KvStore) where
  open kv use {State}

  module _ (st : ChainState State) where
    read-Settles :
        {A : Type 0} (f : State → Result StoreError A) → Settles (Responder.asked kv st f)
    unfolding Responder.asked
    read-Settles f = record { yields = λ r. of_chain store_error (f st.store) }

    answer_block-Settles : (id : Hash256) → Settles (answer_block kv st id)
    unfolding answer_block
    answer_block-Settles id = Settles-bind _ _ (read-Settles (has_block kv id)) λ have.
        Settles-either (not have) _ _ (writing-Settles _ (send-Settles (block_not_found id))) (
          Settles-bind _ _ (read-Settles (stored_block kv id))
            λ blk. writing-Settles _ (send-Settles (block_found id blk)))

    answer-Settles : (msg : Message) → Settles (answer kv st msg)
    unfolding answer
    answer-Settles (get_headers start max) = record {
      yields =
          (writing-Settles _ (send-Settles (handle_get_headers (provided kv st) start max))).yields;
    }
    answer-Settles (get_block id) = record { yields = (answer_block-Settles id).yields }
    answer-Settles (hello g) = record { yields = λ r. tt }
    answer-Settles (hello_ack g) = record { yields = λ r. tt }
    answer-Settles (headers hs) = record { yields = λ r. tt }
    answer-Settles (block_found id block) = record { yields = λ r. tt }
    answer-Settles (block_not_found id) = record { yields = λ r. tt }
    answer-Settles (ping nonce) = record { yields = λ r. tt }
    answer-Settles (pong nonce) = record { yields = λ r. tt }

    answer_ready-Settles : (msg : Message) → Settles (answer_ready kv st msg)
    answer_ready-Settles msg = record { yields = λ r. go r (is_ready r.peer) refl }
      where
        go :
            (r : Session) (b : Bool)
            → is_ready r.peer ≡ b
            → Gives Any IsSettled (answer_ready kv st msg r).0
        go r true e = unfold answer_ready in rw e ((answer-Settles msg).yields r)
        go r false e = unfold answer_ready in rw e tt

    pub serve-Settles : (b3 : Blake3) (msg : Message) → Settles (serve kv st b3 msg)
    unfolding serve
    serve-Settles b3 msg = Settles-then _ _ (deliver-Settles b3 msg) (answer_ready-Settles msg)
