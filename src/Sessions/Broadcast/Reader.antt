-- ===== src/Sessions/Broadcast/Reader.antt =====
-- The goroutine of SignalRCoreBroadcastSender.Execute in sessions/signalr_core_broadcast_sender.go that
-- reads from the websocket: one round of its loop.
use sigbench.Prelude.{
  ℕ, String, Bool, ◌&&◌, List, [], ◌∷◌, Result, ok, err, Outcome, returned, panicked, running,
  slice_out_of_range, index_out_of_range, str_eq, ◌==◌, sub64, div64, if◌then◌else◌,
}
use sigbench.Sessions.Script.{Script, ◌>>=◌, ◌>>◌, pure, add, panic, block}
use sigbench.Sessions.Broadcast.{Field, errors, messages_recv}

-- The fields that the code reads of SignalRCoreInvocation.
pub record Invocation : Type 0 where
  pub type : ℕ
  pub target : String
  pub arguments : List String

-- What c.ReadMessage returns: an error, which IsUnexpectedCloseError may hold of, or a message of some
-- length with what json.Unmarshal makes of it without its last byte.
pub data Inbound : Type 0 where
  read_failed : Bool → Inbound
  frame : ℕ → Result String Invocation → Inbound

-- What follows the round: the goroutine returns, it reads on, or it sends a latency to recvChan and then
-- reads on.
pub data Next : Type 0 where
  stops again : Next
  delivers : ℕ → Next

abbrev pub or_panic : {A : Type 0} → Outcome A → Script Field A
or_panic (returned a) = pure a
or_panic (panicked p) = panic p
or_panic running = block

-- `(time.Now().UnixNano() - sendStart) / 1000000`, if the text parses.
unfoldable pub deliver_latency : ℕ → Result String ℕ → Script Field Next
deliver_latency now (err e) = do add errors 1; pure again
deliver_latency now (ok send_start) = do
  ms ← or_panic (div64 (sub64 now send_start) 1000000)
  pure (delivers ms)

module _ (parse_int : String → Result String ℕ) (user_id : String) (now : ℕ) where
  -- A message of the type and target of a broadcast.
  unfoldable pub read_arguments : List String → Script Field Next
  unfolding deliver_latency
  read_arguments [] = panic index_out_of_range
  read_arguments (sender ∷ []) =
      if str_eq sender user_id then panic index_out_of_range else pure again
  read_arguments (sender ∷ stamp ∷ rest) =
      if str_eq sender user_id then deliver_latency now (parse_int stamp) else pure again

  unfoldable pub read_content : Result String Invocation → Script Field Next
  unfolding read_arguments
  read_content (err e) = do add errors 1; pure stops
  read_content (ok content) = do
    add messages_recv 1
    if content.type == 1 && str_eq content.target "broadcastMessage"
        then read_arguments content.arguments
        else pure again

  unfoldable pub read_message : Inbound → Script Field Next
  unfolding read_content
  read_message (read_failed unexpected) =
      if unexpected then (add errors 1 >> pure stops) else pure stops
  read_message (frame len decoded) =
      if len == 0 then panic slice_out_of_range else read_content decoded
