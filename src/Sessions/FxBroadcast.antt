-- ===== src/Sessions/FxBroadcast.antt =====
-- SignalRFxBroadcastSender of sessions/signalr_fx_broadcast_sender.go: Setup, Counters, Execute, and one
-- round of the goroutine that reads. What HTTP, the websocket, JSON and the clock answer is the
-- environment.
pub mod Account
use sigbench.Prelude.{
  ℕ, ◌≡◌, String, Bool, true, false, ◌&&◌, List, [], ◌∷◌, ◌++◌, Option, none, some, Result, ok, err,
  Outcome, returned, panicked, running, index_out_of_range, closed_channel, minus_one, str_eq,
  sub64, div64, ◌==◌, not, if◌then◌else◌,
}
use sigbench.Counters.{Counters}
use sigbench.Sessions.Api.{Params}
use sigbench.Sessions.Latency.{
  Bucket, less_than_100ms, less_than_500ms, less_than_1000ms, more_than_1000ms,
}
use sigbench.Sessions.Script.{
  Script, ◌>>=◌, ◌>>◌, pure, add, fail, panic, block, or_crash, try, defer, rename,
}
use sigbench.Sessions.Sender
use sigbench.Sessions.Sender.{broadcast_duration, make_recv_chan}

-- The counter fields.
pub data Field : Type 0 where
  in_progress connected errors close_error success messages_recv messages_send messages_send_ack :
      Field
  latency : Bucket → Field

-- The fields that the connected part counts in.
abbrev pub on_sender : Sender.Field → Field
on_sender Sender.connected = connected
on_sender Sender.errors = errors
on_sender Sender.close_error = close_error
on_sender Sender.success = success
on_sender Sender.messages_send = messages_send
on_sender (Sender.latency b) = latency b

unfoldable pub setup : Field → ℕ
setup f = 0

unfoldable pub counters : (Field → ℕ) → Counters
counters s =
    ("signalrfx:broadcast:inprogress", s in_progress)
    ∷ ("signalrfx:broadcast:connected", s connected)
    ∷ ("signalrfx:broadcast:success", s success)
    ∷ ("signalrfx:broadcast:error", s errors)
    ∷ ("signalrfx:broadcast:closeerror", s close_error)
    ∷ ("signalrfx:broadcast:messages:recv", s messages_recv)
    ∷ ("signalrfx:broadcast:messages:send", s messages_send)
    ∷ ("signalrfx:broadcast:messages:sendack", s messages_send_ack)
    ∷ ("signalrfx:broadcast:latency:<100", s (latency less_than_100ms))
    ∷ ("signalrfx:broadcast:latency:<500", s (latency less_than_500ms))
    ∷ ("signalrfx:broadcast:latency:<1000", s (latency less_than_1000ms))
    ∷ ("signalrfx:broadcast:latency:>=1000", s (latency more_than_1000ms))
    ∷ []

-- What the environment answers to one call of Execute.
pub record Env : Type 0 where
  pub new_request : Result String (Unit {0})
  pub handshake : Result String (Unit {0})
  pub decode : Result String String  -- the connection token
  pub dial : Result String (Unit {0})
  pub init : Bool  -- connectChan, before the timeout
  pub start_request : Result String (Unit {0})
  pub start : Result String (Unit {0})
  pub decode_start : Result String String  -- the response to the start
  pub sender : Sender.Env

unfoldable pub wait_init : Bool → Script Field (Unit {0})
wait_init arrived = if arrived then pure tt else try errors (err "no init message")

unfoldable pub check_started : String → Script Field (Unit {0})
check_started response =
    if not (str_eq response "started") then try errors (err response) else pure tt

unfoldable pub execute_body : Env → (String → Result String ℕ) → Params → Script Field (Unit {0})
unfolding Sender.when_connected broadcast_duration make_recv_chan wait_init check_started
execute_body env atoi params = do
  try errors env.new_request
  try errors env.handshake
  connection_token ← try errors env.decode
  try errors env.dial
  make_recv_chan (broadcast_duration atoi params)
  wait_init env.init
  try errors env.start_request
  try errors env.start
  response ← try errors env.decode_start
  check_started response
  rename on_sender (Sender.when_connected env.sender (broadcast_duration atoi params))

unfoldable pub execute : Env → (String → Result String ℕ) → Params → Script Field (Unit {0})
unfolding execute_body
execute env atoi params = do
  add in_progress 1
  defer in_progress minus_one (execute_body env atoi params)

-- SignalRFxServerMessageFrame of sessions/signalr_fx.go.
pub record Frame : Type 0 where
  pub hub : String
  pub method : String
  pub arguments : List String

-- The fields that the code reads of SignalRFxServerMessage.
pub record ServerMessage : Type 0 where
  pub s : ℕ
  pub id : String
  pub frames : List Frame

-- What c.ReadMessage returns: an error, which IsUnexpectedCloseError may hold of, or what json.Unmarshal
-- makes of the message.
pub data Inbound : Type 0 where
  read_failed : Bool → Inbound
  message : Result String ServerMessage → Inbound

-- What a round comes to: the goroutine returns; or it reads on, with the latencies that it has sent to
-- recvChan, and having closed connectChan or not.
pub data Next : Type 0 where
  stops opens : Next
  delivers : List ℕ → Next

module _ (parse_int : String → Result String ℕ) (user_id : String) (now : ℕ) where
  unfoldable pub send_latency : Result String ℕ → Script Field (List ℕ)
  send_latency (err e) = do add errors 1; pure []
  send_latency (ok send_start) = do
    ms ← or_crash (div64 (sub64 now send_start) 1000000)
    pure (ms ∷ [])

  unfoldable pub read_arguments : List String → Script Field (List ℕ)
  unfolding send_latency
  read_arguments [] = panic index_out_of_range
  read_arguments (sender ∷ []) = if str_eq sender user_id then panic index_out_of_range else pure []
  read_arguments (sender ∷ stamp ∷ rest) =
      if str_eq sender user_id then send_latency (parse_int stamp) else pure []

  unfoldable pub read_frames : List Frame → Script Field (List ℕ)
  unfolding read_arguments
  read_frames [] = pure []
  read_frames (f ∷ fs) =
      let later = read_frames fs in
      do
        sent ←
            if str_eq f.hub "Chat" && str_eq f.method "send"
            then read_arguments f.arguments
            else pure []
        more ← later
        pure (sent ++ more)

  -- `opened`: an earlier round has closed connectChan, and a second close panics.
  unfoldable pub read_content : Bool → ServerMessage → Script Field Next
  unfolding read_frames
  read_content opened content =
      if content.s == 1
      then if opened then panic closed_channel else pure opens
      else if not (str_eq content.id "")
      then (add messages_send_ack 1 >> pure (delivers []))
      else (read_frames content.frames >>= λ sent. pure (delivers sent))

  unfoldable pub read_message : Bool → Inbound → Script Field Next
  unfolding read_content
  read_message opened (read_failed unexpected) =
      if unexpected then (add errors 1 >> pure stops) else pure stops
  read_message opened (message (err e)) = do add errors 1; pure stops
  read_message opened (message (ok content)) = do add messages_recv 1; read_content opened content
