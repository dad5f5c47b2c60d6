-- ===== src/Sessions/WebPubSub/Reader.antt =====
-- The goroutine that reads in Execute of sessions/webpubsub_echo.go, beside Execute itself: two threads
-- that meet on unbuffered channels. A step is one thread's, or the two of a send that a select takes.
use sigbench.Prelude.{
  String, Bool, List, [], ◌∷◌, ◌++◌, Option, none, some, Result, ℕ, if◌then◌else◌, run_steps,
  minus_one,
}
use sigbench.Sessions.Script.{Ending, value, error, crash, blocked, Script, ◌>>◌, try, deferred}
use sigbench.Sessions.Echo.{Field, in_progress, errors}
use sigbench.Sessions.WebPubSub.{
  WebPubSubEvent, Signal, connected, acked, message, unexpected, classify, OnConnected, OnJoined,
  OnEcho, wait_connected, wait_joined, echo_round, echo_loop,
}

-- What ReadMessage and json.Unmarshal make of the next message; the flag of a failed read is
-- websocket.IsUnexpectedCloseError.
pub data Inbound : Type 0 where
  read_failed : Bool → Inbound
  undecodable : Inbound
  event : WebPubSubEvent → Inbound

-- Where the reading goroutine is: in ReadMessage, in a send, in the send on closeChan, or at its end.
pub data Reader : Type 0 where
  reading : Reader
  sending : Signal → Reader
  closing : Reader
  stopped : Reader

-- One round of its loop, up to its send.
unfoldable pub receive : Inbound → List (Field × ℕ) × Reader
receive (read_failed is_unexpected) = (if is_unexpected then (errors, 1) ∷ [] else [], closing)
receive undecodable = ((errors, 1) ∷ [], stopped)
receive (event ev) = ([], sending (classify ev))

-- Behind a send: the next round, or the return.
unfoldable pub released : Reader → Reader
released reading = reading
released (sending s) = reading
released closing = stopped
released stopped = stopped

-- Where Execute is: in one of its selects, or at its end.
pub data Stage : Type 0 where
  at_connected at_joined at_echo : Stage
  returned : Ending (Unit {0}) → Stage

-- The two threads, with what each has counted.
pub record Conversation : Type 0 where
  pub reader : Reader
  pub stage : Stage
  pub own : List (Field × ℕ)
  pub by_reader : List (Field × ℕ)

-- Behind Dial.
unfoldable pub start : Conversation
start = record {
  reader = reading;
  stage = at_connected;
  own = (in_progress, 1) ∷ [];
  by_reader = [];
}

-- Execute returns behind `m`, with its deferred addition.
unfoldable pub finish : Script Field (Unit {0}) → Conversation → Conversation
finish m c = record c {
  own = c.own ++ (m.0 ++ deferred in_progress minus_one m.1);
  stage = returned m.1;
}

-- Execute goes on to its next select behind `m`, unless `m` fails.
unfoldable pub go_on : Stage → Script Field (Unit {0}) → Conversation → Conversation
unfolding finish
go_on next (adds, value a) c = record c { own = c.own ++ adds; stage = next }
go_on next (adds, error e) c = finish (adds, error e) c
go_on next (adds, crash p) c = finish (adds, crash p) c
go_on next (adds, blocked) c = finish (adds, blocked) c

-- Behind a round of the loop.
unfoldable pub go_round : Option (Script Field (Unit {0})) → Conversation → Conversation
unfolding finish
go_round none c = c
go_round (some m) c = finish m c

-- The reader gets a message; a select takes the reader's send, and the write behind the select, if
-- one follows, has the result; or the select's timer fires.
pub data Event : Type 0 where
  reads : Inbound → Event
  takes : Result String (Unit {0}) → Event
  times_out : Event

unfoldable pub read : Inbound → Reader → Conversation → Option Conversation
unfolding receive
read i reading c =
    some (record c { reader = (receive i).1; by_reader = c.by_reader ++ (receive i).0 })
read i _ c = none

-- `format` is fmt.Errorf("Unexpected message: %+v", ev).
module _ (format : WebPubSubEvent → String) where
  -- What a select takes of the reader's send, if it has a case for it.
  unfoldable pub offer_connected : Reader → Option OnConnected
  offer_connected (sending connected) = some OnConnected.conn
  offer_connected (sending (unexpected ev)) = some (OnConnected.failed (format ev))
  offer_connected closing = some OnConnected.closed
  offer_connected _ = none

  unfoldable pub offer_joined : Reader → Option OnJoined
  offer_joined (sending (acked id)) = some (OnJoined.ack id)
  offer_joined (sending (unexpected ev)) = some (OnJoined.failed (format ev))
  offer_joined closing = some OnJoined.closed
  offer_joined _ = none

  unfoldable pub offer_echo : Reader → Option OnEcho
  offer_echo (sending (acked id)) = some (OnEcho.ack id)
  offer_echo (sending (message text)) = some (OnEcho.data_msg text)
  offer_echo (sending (unexpected ev)) = some (OnEcho.failed (format ev))
  offer_echo closing = some OnEcho.closed
  offer_echo _ = none

  unfoldable pub take : Result String (Unit {0}) → Stage → Conversation → Option Conversation
  unfolding released go_on go_round offer_connected offer_joined offer_echo wait_connected
      wait_joined
  take written at_connected c = elim (offer_connected c.reader) [
    | none ↦ none
    | some o ↦ some (
        go_on at_joined (wait_connected o >> try errors written)
          (record c { reader = released c.reader }))
  ]
  take written at_joined c = elim (offer_joined c.reader) [
    | none ↦ none
    | some o ↦ some (
        go_on at_echo (wait_joined o >> try errors written)
          (record c { reader = released c.reader }))
  ]
  take written at_echo c = elim (offer_echo c.reader) [
    | none ↦ none
    | some o ↦ some (go_round (echo_round o) (record c { reader = released c.reader }))
  ]
  take written (returned r) c = none

  unfoldable pub time_out : Stage → Conversation → Option Conversation
  unfolding finish wait_connected wait_joined echo_loop
  time_out at_connected c = some (finish (wait_connected OnConnected.timeout) c)
  time_out at_joined c = some (finish (wait_joined OnJoined.timeout) c)
  time_out at_echo c = some (finish (echo_loop []) c)
  time_out (returned r) c = none

  unfoldable pub step : Conversation → Event → Option Conversation
  unfolding read take time_out
  step c (reads i) = read i c.reader c
  step c (takes written) = take written c.stage c
  step c times_out = time_out c.stage c

  -- The two threads over a sequence of steps.
  unfoldable pub converse : Conversation → List Event → Option Conversation
  converse c es = run_steps step c es
