-- ===== src/Sessions/Redis.antt =====
-- RedisPubSub of sessions/redis_pubsub.go: Setup, Execute with its subscriber, and Counters. Of the pool
-- of connections only the closing is kept; what its connections answer is the environment, as are the
-- clock and encoding/json.
pub mod Weights
pub mod Account
pub mod Exit
use sigbench.Prelude.{
  ℕ, zero, suc, ◌-◌, ◌/◌, String, Bool, true, false, List, [], ◌∷◌, Option, none, some, Result, ok,
  err, Outcome, minus_one, str_eq, mul64, sub64, div64, is_neg, ◌>>=◌ as bind_outcome,
  if◌then◌else◌,
}
use sigbench.Counters.{Counters}
use sigbench.Sessions.Api.{Params}
use sigbench.Sessions.Latency.{
  Bucket, less_than_100ms, less_than_500ms, less_than_1000ms, more_than_1000ms, latency_bucket,
}
use sigbench.Sessions.Script.{Script, ◌>>=◌, ◌>>◌, pure, add, block, or_crash, try, defer}
use sigbench.Sessions.Sender.{broadcast_duration, rounds, make_recv_chan}

-- The counter fields.
pub data Field : Type 0 where
  in_progress connected errors error_not_recv_all success messages_recv messages_send : Field
  latency : Bucket → Field

-- A pool is the parameters that its Dial reads the host from.
pub record RedisPubSub : Type 0 where
  pub counter : Field → ℕ
  pub pool : Option Params
  pub closed_pools : List Params

-- `s.pool.Close()` for an old pool.
abbrev pub close_old : Option Params → List Params → List Params
close_old none closed = closed
close_old (some p) closed = p ∷ closed

unfoldable pub setup_redis_pool : Params → RedisPubSub → RedisPubSub
setup_redis_pool params s = record s {
  pool = some params;
  closed_pools = close_old s.pool s.closed_pools;
}

-- It returns no error.
unfoldable pub setup : Params → RedisPubSub → RedisPubSub
unfolding setup_redis_pool
setup params s = record (setup_redis_pool params s) { counter = λ f. 0 }

unfoldable pub counters : RedisPubSub → Counters
counters s =
    ("redis:pubsub:inprogress", s.counter in_progress)
    ∷ ("redis:pubsub:connected", s.counter connected)
    ∷ ("redis:pubsub:success", s.counter success)
    ∷ ("redis:pubsub:error", s.counter errors)
    ∷ ("redis:pubsub:error:notrecvall", s.counter error_not_recv_all)
    ∷ ("redis:pubsub:messages:recv", s.counter messages_recv)
    ∷ ("redis:pubsub:messages:send", s.counter messages_send)
    ∷ ("redis:pubsub:latency:<100", s.counter (latency less_than_100ms))
    ∷ ("redis:pubsub:latency:<500", s.counter (latency less_than_500ms))
    ∷ ("redis:pubsub:latency:<1000", s.counter (latency less_than_1000ms))
    ∷ ("redis:pubsub:latency:>=1000", s.counter (latency more_than_1000ms))
    ∷ []

-- What the environment answers to one call of Execute.
pub record Env : Type 0 where
  pub interval : Result String ℕ  -- strconv.Atoi of the publish interval
  pub subscribe : Result String (Unit {0})
  pub marshal : ℕ → Result String (Unit {0})
  pub publish : ℕ → Result String (Unit {0})
  pub receive : ℕ → Option ℕ  -- a latency from recvChan, or the timeout

-- `broadcastDurationSecs * 1000 * 1000 / publishInterval`
unfoldable pub total_msg_cnt : ℕ → ℕ → Outcome ℕ
total_msg_cnt secs interval = div64 (mul64 (mul64 secs 1000) 1000) interval

-- `<-startChan`: the goroutine closes it once it has subscribed.
unfoldable pub wait_start : Result String (Unit {0}) → Script Field (Unit {0})
wait_start (ok _) = pure tt
wait_start (err e) = block

-- `select` on recvChan and the timer.
unfoldable pub receive_one : Option ℕ → Script Field ℕ
receive_one none = try error_not_recv_all (err "fail to receive all messages within timeout")
receive_one (some ms) = pure ms

module _ (env : Env) where
  unfoldable pub publish_loop : ℕ → ℕ → Script Field (Unit {0})
  publish_loop zero i = pure tt
  publish_loop (suc n) i =
      let later = publish_loop n (suc i) in
      do try errors (env.marshal i); try errors (env.publish i); add messages_send 1; later

  unfoldable pub receive_loop : ℕ → ℕ → Script Field (Unit {0})
  unfolding receive_one
  receive_loop zero i = pure tt
  receive_loop (suc n) i =
      let later = receive_loop n (suc i) in
      do ms ← receive_one (env.receive i); add (latency (latency_bucket ms)) 1; later

  -- From the increment of cntConnected on, for so many messages.
  unfoldable pub when_connected : ℕ → Script Field (Unit {0})
  unfolding publish_loop receive_loop
  when_connected n = do
    add connected 1
    defer connected minus_one (publish_loop n 0 >> receive_loop n 0 >> add success 1)

  unfoldable pub execute_body : ℕ → Script Field (Unit {0})
  unfolding total_msg_cnt wait_start when_connected
  execute_body secs = do
    interval ← try errors env.interval
    total ← or_crash (total_msg_cnt secs interval)
    make_recv_chan total
    wait_start env.subscribe
    when_connected (rounds total)

  unfoldable pub execute : (String → Result String ℕ) → Params → Script Field (Unit {0})
  unfolding execute_body broadcast_duration
  execute atoi params = do
    add in_progress 1
    defer in_progress minus_one (execute_body (broadcast_duration atoi params))

-- What sc.Receive() gives: a message of the channel, decoded if it can be, an error, or anything else.
pub data Inbound : Type 0 where
  message : Result String (String × ℕ) → Inbound  -- Uid, and Timestamp in nanoseconds
  failed : String → Inbound
  other : Inbound

-- The goroutine after it has subscribed: what it adds, and the latencies that it sends to recvChan. Each
-- message comes with time.Now().UnixNano() at its arrival.
unfoldable pub receive_messages : String → List (Inbound × ℕ) → List (Field × ℕ) × List (Outcome ℕ)
receive_messages user [] = ([], [])
receive_messages user ((message (ok (uid, timestamp)), now) ∷ later) =
    let rest = receive_messages user later in
    (
      (messages_recv, 1) ∷ rest.0,
      if str_eq uid user then div64 (sub64 now timestamp) 1000000 ∷ rest.1 else rest.1,
    )
receive_messages user ((message (err e), now) ∷ later) =
    let rest = receive_messages user later in ((messages_recv, 1) ∷ (errors, 1) ∷ rest.0, rest.1)
receive_messages user ((failed e, now) ∷ later) =
    (if str_eq e "redigo: connection closed" then [] else (errors, 1) ∷ [], [])
receive_messages user ((other, now) ∷ later) = receive_messages user later
