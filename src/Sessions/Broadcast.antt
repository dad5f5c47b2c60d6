-- ===== src/Sessions/Broadcast.antt =====
-- SignalRCoreBroadcastSender of sessions/signalr_core_broadcast_sender.go: Execute, its helpers and the
-- goroutine that reads. What HTTP, the websocket, JSON and the clock answer is the environment.
pub mod Weights
pub mod Account
pub mod Reader
pub mod Delivery
use sigbench.Prelude.{
  ℕ, zero, lt64, suc, ◌+◌, ◌-◌, ◌/◌, ◌%◌, ◌≡◌, refl, String, Bool, true, false, ◌||◌, List, [], ◌∷◌,
  ◌++◌, Option, none, some, Result, ok, err, Outcome, returned, panicked, running, Panic,
  index_out_of_range, bad_size, get_elem?, ltb, leb, is_neg, magnitude, length, minus_one, lookup,
  str_eq, if◌then◌else◌, ◌==◌,
}
use sigbench.Counters.{Counters}
use sigbench.Text.{split}
use sigbench.Util.{get_vmss_instance_id}
use sigbench.Sessions.Api.{Params}
use Prim.Native.String.{◌++◌ as ◌^^◌}
use sigbench.Sessions.Latency.{
  Bucket, less_than_100ms, less_than_500ms, less_than_1000ms, more_than_1000ms, latency_bucket,
}
use sigbench.Sessions.Sender
use sigbench.Sessions.Sender.{broadcast_duration, make_recv_chan}
use sigbench.Sessions.Script.{
  rename, Ending, value, error, crash, blocked, Script, ◌>>=◌, ◌>>◌, pure, add, fail, panic, block,
  try, defer, or_out_of_range,
}

-- The counter fields; `instance_hit i` is cntInstances[i].
pub data Field : Type 0 where
  user_idx in_progress connected errors close_error success messages_recv messages_send : Field
  latency : Bucket → Field
  instance_hit : ℕ → Field

-- The fields that the connected part counts in.
abbrev pub on_sender : Sender.Field → Field
on_sender Sender.connected = connected
on_sender Sender.errors = errors
on_sender Sender.close_error = close_error
on_sender Sender.success = success
on_sender Sender.messages_send = messages_send
on_sender (Sender.latency b) = latency b

abbrev pub max_instances : ℕ
max_instances = 256

-- `xs[i]` for an int64 index.
unfoldable pub index64 : {A : Type 0} → List A → ℕ → Script Field A
index64 xs i = if is_neg i then panic index_out_of_range else or_out_of_range (get_elem? xs i)

-- `i % n` for n > 0: a remainder has the sign of i.
unfoldable pub rem64 : ℕ → ℕ → ℕ
rem64 i n =
    if is_neg i
    then (if magnitude i % n == 0 then 0 else 18446744073709551616 - magnitude i % n)
    else i % n

-- Round robin: `idx` is the result of atomic.AddInt64(&s.userIdx, 1).
unfoldable pub select_host : ℕ → String → Script Field String
unfolding index64 rem64
select_host idx hosts = do add user_idx 1; index64 (split hosts) (rem64 idx (length (split hosts)))

unfoldable pub count_instance : Outcome (Result String ℕ) → Script Field (Unit {0})
count_instance (panicked p) = panic p
count_instance running = block
count_instance (returned (err e)) = try errors (err e)
count_instance (returned (ok id)) =
    if is_neg id || leb max_instances id then panic index_out_of_range else add (instance_hit id) 1

unfoldable pub log_host_instance : List ℕ → Script Field (Unit {0})
unfolding count_instance
log_host_instance hostname = count_instance (get_vmss_instance_id hostname)

-- `ctx.Params[ParamHost]`
abbrev pub host_list : Params → String
host_list params = elim (lookup "host" params) [ none ↦ "" | some h ↦ h ]

-- What the environment answers to one call of Execute.
pub record Env : Type 0 where
  pub idx : ℕ
  pub new_request : Result String (Unit {0})
  pub handshake : Result String (List ℕ)  -- the X-HostName header
  pub decode : Result String String  -- the connection id
  pub dial : Result String (Unit {0})
  pub set_protocol : Result String (Unit {0})
  pub sender : Sender.Env

module _ (env : Env) where
  unfoldable pub execute_body : (String → Result String ℕ) → Params → Script Field (Unit {0})
  unfolding Sender.when_connected select_host log_host_instance broadcast_duration make_recv_chan
  execute_body atoi params = do
    host ← select_host env.idx (host_list params)
    try errors env.new_request
    hostname ← try errors env.handshake
    log_host_instance hostname
    connection_id ← try errors env.decode
    try errors env.dial
    make_recv_chan (broadcast_duration atoi params)
    try errors env.set_protocol
    rename on_sender (Sender.when_connected env.sender (broadcast_duration atoi params))

  unfoldable pub execute : (String → Result String ℕ) → Params → Script Field (Unit {0})
  unfolding execute_body
  execute atoi params = do add in_progress 1; defer in_progress minus_one (execute_body atoi params)

unfoldable pub setup : Field → ℕ
setup f = 0

-- `signalrcore:broadcast:instancehit:` with the number; `itoa` is strconv.Itoa. A counter that is not
-- positive is left out.
unfoldable pub instance_counters : (ℕ → String) → (Field → ℕ) → ℕ → ℕ → Counters
instance_counters itoa s zero i = []
instance_counters itoa s (suc n) i =
    let rest = instance_counters itoa s n (suc i) in
    if lt64 0 (s (instance_hit i))
    then (◌^^◌ "signalrcore:broadcast:instancehit:" (itoa i), s (instance_hit i)) ∷ rest
    else rest

unfoldable pub counters : (ℕ → String) → (Field → ℕ) → Counters
unfolding instance_counters
counters itoa s =
    ("signalrcore:broadcast:inprogress", s in_progress)
    ∷ ("signalrcore:broadcast:connected", s connected)
    ∷ ("signalrcore:broadcast:success", s success)
    ∷ ("signalrcore:broadcast:error", s errors)
    ∷ ("signalrcore:broadcast:closeerror", s close_error)
    ∷ ("signalrcore:broadcast:messages:recv", s messages_recv)
    ∷ ("signalrcore:broadcast:messages:send", s messages_send)
    ∷ ("signalrcore:broadcast:latency:<100", s (latency less_than_100ms))
    ∷ ("signalrcore:broadcast:latency:<500", s (latency less_than_500ms))
    ∷ ("signalrcore:broadcast:latency:<1000", s (latency less_than_1000ms))
    ∷ ("signalrcore:broadcast:latency:>=1000", s (latency more_than_1000ms))
    ∷ instance_counters itoa s max_instances 0
