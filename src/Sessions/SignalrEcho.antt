-- ===== src/Sessions/SignalrEcho.antt =====
-- SignalRCoreEcho of sessions/signalr_core_echo.go: Execute. What HTTP, the websocket and the two timers
-- answer is the environment; the two channels are what its reading goroutine closes.
pub mod Reader
use sigbench.Prelude.{ℕ, refl, String, Bool, [], ◌∷◌, Result, err, arith, if◌then◌else◌}
use sigbench.Counters.{Counters}
use sigbench.Sessions.Script.{Script, ◌>>=◌, ◌>>◌, pure, add, try}
use sigbench.Sessions.Script.Rules.{Steady, bind-Steady, try-Steady, if-Steady}
use sigbench.Sessions.Echo.{Field, in_progress, errors, success, tracked, tracked-Settles, Settles}

pub record Env : Type 0 where
  pub new_request : Result String (Unit {0})
  pub handshake : Result String (Unit {0})
  pub decode : Result String String  -- the connection id
  pub dial : Result String (Unit {0})
  pub set_protocol : Result String (Unit {0})
  pub send_echo : Result String (Unit {0})
  pub echo_received : Bool  -- before the timer
  pub close : Result String (Unit {0})
  pub done : Bool  -- before the timer

-- `select` on a channel that is closed and a timer.
unfoldable pub wait_for : String → Bool → Script Field (Unit {0})
wait_for msg arrived = if arrived then pure tt else try errors (err msg)

unfoldable pub execute_body : Env → Script Field (Unit {0})
unfolding wait_for
execute_body env = do
  try errors env.new_request
  try errors env.handshake
  connection_id ← try errors env.decode
  try errors env.dial
  try errors env.set_protocol
  try errors env.send_echo
  wait_for "fail to receive echo within timeout" env.echo_received
  try errors env.close
  wait_for "fail to receive close message" env.done
  add success 1

unfoldable pub execute : Env → Script Field (Unit {0})
unfolding execute_body
execute env = tracked (execute_body env)

unfoldable pub setup : Field → ℕ
setup f = 0

unfoldable pub counters : (Field → ℕ) → Counters
counters s =
    ("signalrcore:echo:inprogress", s in_progress)
    ∷ ("signalrcore:echo:success", s success)
    ∷ ("signalrcore:echo:error", s errors)
    ∷ []

module _ (w : Field × ℕ → ℕ) where
  wait_for-Steady : (msg : String) (b : Bool) → Steady w ⊥ 0 (w (errors, 1)) (wait_for msg b)
  unfolding wait_for
  wait_for-Steady msg b =
      if-Steady w ⊥ 0 (w (errors, 1)) b (pure tt) (try errors (err msg)) refl (omega arith)

  execute_body-Steady : (env : Env) → Steady w ⊥ (w (success, 1)) (w (errors, 1)) (execute_body env)
  unfolding execute_body
  execute_body-Steady env =
      let v = w (success, 1) in
      let e = w (errors, 1) in
      bind-Steady w ⊥ v e (try errors env.new_request) _ (try-Steady w ⊥ errors env.new_request)
        λ _.
          bind-Steady w ⊥ v e (try errors env.handshake) _ (try-Steady w ⊥ errors env.handshake)
            λ _.
              bind-Steady w ⊥ v e (try errors env.decode) _ (try-Steady w ⊥ errors env.decode) λ id.
                bind-Steady w ⊥ v e (try errors env.dial) _ (try-Steady w ⊥ errors env.dial) λ _.
                  bind-Steady w ⊥ v e (try errors env.set_protocol) _
                    (try-Steady w ⊥ errors env.set_protocol)
                    λ _.
                      bind-Steady w ⊥ v e (try errors env.send_echo) _
                        (try-Steady w ⊥ errors env.send_echo)
                        λ _.
                          bind-Steady w ⊥ v e
                            (wait_for "fail to receive echo within timeout" env.echo_received) _
                            (wait_for-Steady "fail to receive echo within timeout"
                              env.echo_received)
                            λ _.
                              bind-Steady w ⊥ v e (try errors env.close) _
                                (try-Steady w ⊥ errors env.close)
                                λ _.
                                  bind-Steady w ⊥ v e
                                    (wait_for "fail to receive close message" env.done) _
                                    (wait_for-Steady "fail to receive close message" env.done)
                                    λ _. omega arith

-- Every call of Execute returns, whatever the server answers. It takes back what it adds to
-- cntInProgress; if it returns nil it counts one success and no error, and if it returns an error one
-- error and no success.
pub signalr_execute-Settles : (env : Env) → Settles (execute env).0 (execute env).1
unfolding execute
signalr_execute-Settles env = tracked-Settles (execute_body env) (λ w. execute_body-Steady w env)
