-- ===== src/Sessions/Sender.antt =====
-- What Execute of sessions/signalr_core_broadcast_sender.go and of
-- sessions/signalr_fx_broadcast_sender.go do alike: the duration, the channel of latencies, and all that
-- follows the increment of cntConnected.
pub mod Weights
pub mod Loops
pub mod Channel
use sigbench.Prelude.{
  ℕ, zero, suc, ◌≡◌, String, Bool, Option, none, some, Result, ok, err, bad_size, is_neg, minus_one,
  lookup, if◌then◌else◌,
}
use sigbench.Sessions.Api.{Params}
use sigbench.Sessions.Latency.{Bucket, latency_bucket}
use sigbench.Sessions.Script.{Script, ◌>>=◌, ◌>>◌, pure, add, panic, try, defer}

-- The counter fields of that part.
pub data Field : Type 0 where
  connected errors close_error success messages_send : Field
  latency : Bucket → Field

-- `broadcastDurationSecs`: 10 unless the parameter is a number.
unfoldable pub broadcast_duration : (String → Result String ℕ) → Params → ℕ
broadcast_duration atoi params = elim (lookup "broadcastDurationSecs" params) [
  | none ↦ 10
  | some secs_str ↦ elim (atoi secs_str) [ ok secs ↦ secs | err _ ↦ 10 ]
]

-- The rounds of `for i := 0; i < n; i++`.
abbrev pub rounds : ℕ → ℕ
rounds n = if is_neg n then 0 else n

-- `make(chan int64, broadcastDurationSecs)` panics for a negative size.
unfoldable pub make_recv_chan : {C : Type 0} → ℕ → Script C (Unit {0})
make_recv_chan secs = if is_neg secs then panic bad_size else pure tt

-- What the environment answers once the session is connected.
pub record Env : Type 0 where
  pub serialize : ℕ → Result String (Unit {0})
  pub send : ℕ → Result String (Unit {0})
  pub receive : ℕ → Option ℕ  -- a latency, or the timeout
  pub close : Result String (Unit {0})
  pub closed : Bool  -- closeChan, before the timeout

-- `select` on recvChan and the timer.
unfoldable pub receive_one : Option ℕ → Script Field ℕ
receive_one none = try errors (err "fail receive all self broadcast messages within timeout")
receive_one (some ms) = pure ms

module _ (env : Env) where
  -- The loop that sends; `i` counts up over the rounds that are left.
  unfoldable pub send_loop : ℕ → ℕ → Script Field (Unit {0})
  send_loop zero i = pure tt
  send_loop (suc n) i =
      let later = send_loop n (suc i) in
      do try errors (env.serialize i); try errors (env.send i); add messages_send 1; later

  -- The loop that waits for the user's own messages.
  unfoldable pub receive_loop : ℕ → ℕ → Script Field (Unit {0})
  receive_loop zero i = pure tt
  receive_loop (suc n) i =
      let later = receive_loop n (suc i) in
      do ms ← receive_one (env.receive i); add (latency (latency_bucket ms)) 1; later

  unfoldable pub close_session : Script Field (Unit {0})
  close_session = if env.closed then add success 1 else add close_error 1

  unfoldable pub connected_part : ℕ → Script Field (Unit {0})
  unfolding send_loop receive_loop receive_one close_session
  connected_part secs = do
    send_loop (rounds secs) 0
    receive_loop (rounds secs) 0
    try errors env.close
    close_session

  -- From the increment of cntConnected on, which a deferred decrement undoes.
  unfoldable pub when_connected : ℕ → Script Field (Unit {0})
  unfolding connected_part
  when_connected secs = do add connected 1; defer connected minus_one (connected_part secs)
