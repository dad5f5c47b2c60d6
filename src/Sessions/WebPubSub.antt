-- ===== src/Sessions/WebPubSub.antt =====
-- WebPubSubEcho of sessions/webpubsub_echo.go: Execute and its three selects, and how its reading
-- goroutine tells the events apart. What the websocket answers is the environment.
pub mod Reader
pub mod Steps
pub mod Refines
pub mod Sends
pub mod Leaks
pub mod Reports
pub mod Doubles
pub mod Stalls
pub mod Succeeds
use sigbench.Prelude.{
  ℕ, refl, String, ◌&&◌, not, List, [], ◌∷◌, Result, err, str_eq, arith, ◌==◌, if◌then◌else◌,
  Option, none, some, Bool-cases, inl, inr,
}
use sigbench.Counters.{Counters}
use sigbench.Sessions.Script.{Script, ◌>>◌, pure, add, try}
use sigbench.Sessions.Script.Rules.{Steady, bind-Steady, try-Steady, if-Steady}
use sigbench.Sessions.Echo.{Field, in_progress, errors, success, tracked, tracked-Settles, Settles}

-- The fields that the code reads of WebPubSubEvent.
pub record WebPubSubEvent : Type 0 where
  pub type : String
  pub event : String
  pub from : String
  pub ack_id : ℕ
  pub data_text : String

-- The channel that the reading goroutine sends an event to.
pub data Signal : Type 0 where
  connected : Signal
  acked : ℕ → Signal
  message : String → Signal
  unexpected : WebPubSubEvent → Signal

unfoldable pub classify : WebPubSubEvent → Signal
classify ev =
    if str_eq ev.type "system" && str_eq ev.event "connected"
    then connected
    else if str_eq ev.type "ack"
    then acked ev.ack_id
    else if str_eq ev.type "message" && str_eq ev.from "group"
    then message ev.data_text
    else unexpected ev

-- What the first select may take, and the second.
pub data OnConnected : Type 0 where
  timeout conn closed : OnConnected
  failed : String → OnConnected

pub data OnJoined : Type 0 where
  timeout closed : OnJoined
  ack : ℕ → OnJoined
  failed : String → OnJoined

-- What the select of the loop may take before its timer.
pub data OnEcho : Type 0 where
  closed : OnEcho
  ack : ℕ → OnEcho
  data_msg : String → OnEcho
  failed : String → OnEcho

unfoldable pub wait_connected : OnConnected → Script Field (Unit {0})
wait_connected OnConnected.timeout = try errors (err "On connected timeout")
wait_connected OnConnected.conn = pure tt
wait_connected (OnConnected.failed e) = try errors (err e)
wait_connected OnConnected.closed = try errors (err "Unexpected close")

-- Joining has the ack id 1.
unfoldable pub wait_joined : OnJoined → Script Field (Unit {0})
wait_joined OnJoined.timeout = try errors (err "Join group ack timeout")
wait_joined (OnJoined.ack id) =
    if not (id == 1) then try errors (err "Unexpected ack id") else pure tt
wait_joined (OnJoined.failed e) = try errors (err e)
wait_joined OnJoined.closed = try errors (err "Unexpected close")

-- One round of the loop; `none` is `continue`. Sending has the ack id 2.
unfoldable pub echo_round : OnEcho → Option (Script Field (Unit {0}))
echo_round (OnEcho.ack id) =
    if not (id == 2) then some (try errors (err "Unexpected ack id")) else none
echo_round (OnEcho.data_msg text) =
    some (if not (str_eq text "foobar") then try errors (err "Unexpected data") else add success 1)
echo_round (OnEcho.failed e) = some (try errors (err e))
echo_round OnEcho.closed = some (try errors (err "Unexpected close"))

-- Behind the last thing that the select takes, the timer fires.
unfoldable pub echo_loop : List OnEcho → Script Field (Unit {0})
unfolding echo_round
echo_loop [] = try errors (err "Echo timeout")
echo_loop (o ∷ rest) =
    let later = echo_loop rest in elim (echo_round o) [ none ↦ later | some m ↦ m ]

pub record Env : Type 0 where
  pub dial : Result String (Unit {0})
  pub on_connected : OnConnected
  pub join_group : Result String (Unit {0})
  pub on_joined : OnJoined
  pub send_to_group : Result String (Unit {0})
  pub on_echo : List OnEcho

unfoldable pub execute_body : Env → Script Field (Unit {0})
unfolding wait_connected wait_joined echo_loop
execute_body env = do
  try errors env.dial
  wait_connected env.on_connected
  try errors env.join_group
  wait_joined env.on_joined
  try errors env.send_to_group
  echo_loop env.on_echo

unfoldable pub execute : Env → Script Field (Unit {0})
unfolding execute_body
execute env = tracked (execute_body env)

-- Setup, but for the dialer.
unfoldable pub setup : Field → ℕ
setup f = 0

unfoldable pub counters : (Field → ℕ) → Counters
counters s =
    ("webpubsub:echo:inprogress", s in_progress)
    ∷ ("webpubsub:echo:success", s success)
    ∷ ("webpubsub:echo:error", s errors)
    ∷ []

module _ (w : Field × ℕ → ℕ) where
  tries :
      (e : String) → Steady w ⊥ (w (success, 1)) (w (errors, 1)) (try {A = Unit {0}} errors (err e))
  tries e = omega arith

  wait_connected-Steady : (o : OnConnected) → Steady w ⊥ 0 (w (errors, 1)) (wait_connected o)
  unfolding wait_connected
  wait_connected-Steady OnConnected.timeout = omega arith
  wait_connected-Steady OnConnected.conn = refl
  wait_connected-Steady (OnConnected.failed e) = omega arith
  wait_connected-Steady OnConnected.closed = omega arith

  wait_joined-Steady : (o : OnJoined) → Steady w ⊥ 0 (w (errors, 1)) (wait_joined o)
  unfolding wait_joined
  wait_joined-Steady OnJoined.timeout = omega arith
  wait_joined-Steady (OnJoined.ack id) =
      if-Steady w ⊥ 0 (w (errors, 1)) (not (id == 1)) (try errors (err "Unexpected ack id"))
        (pure tt) (omega arith) refl
  wait_joined-Steady (OnJoined.failed e) = omega arith
  wait_joined-Steady OnJoined.closed = omega arith

  -- The round ends the call, or goes on.
  abbrev Rounds : Option (Script Field (Unit {0})) → Type 0
  Rounds none = Unit {0}
  Rounds (some m) = Steady w ⊥ (w (success, 1)) (w (errors, 1)) m

  echo_round-Rounds : (o : OnEcho) → Rounds (echo_round o)
  unfolding echo_round
  echo_round-Rounds (OnEcho.ack id) = elim (Bool-cases (id == 2)) [
    | inl same ↦ rw same tt
    | inr other ↦ rw other (tries "Unexpected ack id")
  ]
  echo_round-Rounds (OnEcho.data_msg text) =
      if-Steady w ⊥ (w (success, 1)) (w (errors, 1)) (not (str_eq text "foobar"))
        (try errors (err "Unexpected data")) (add success 1) (tries "Unexpected data") (omega arith)
  echo_round-Rounds (OnEcho.failed e) = tries e
  echo_round-Rounds OnEcho.closed = tries "Unexpected close"

  Rounds-Steady :
      (later : Script Field (Unit {0})) (r : Option (Script Field (Unit {0})))
      → Rounds r
      → Steady w ⊥ (w (success, 1)) (w (errors, 1)) later
      → Steady w ⊥ (w (success, 1)) (w (errors, 1)) (elim r [ none ↦ later | some m ↦ m ])
  Rounds-Steady later none h k = k
  Rounds-Steady later (some m) h k = h

  echo_loop-Steady : (l : List OnEcho) → Steady w ⊥ (w (success, 1)) (w (errors, 1)) (echo_loop l)
  unfolding echo_loop
  echo_loop-Steady [] = tries "Echo timeout"
  echo_loop-Steady (o ∷ rest) =
      Rounds-Steady (echo_loop rest) (echo_round o) (echo_round-Rounds o) (echo_loop-Steady rest)

  execute_body-Steady : (env : Env) → Steady w ⊥ (w (success, 1)) (w (errors, 1)) (execute_body env)
  unfolding execute_body
  execute_body-Steady env =
      let v = w (success, 1) in
      let e = w (errors, 1) in
      bind-Steady w ⊥ v e (try errors env.dial) _ (try-Steady w ⊥ errors env.dial) λ _.
        bind-Steady w ⊥ v e (wait_connected env.on_connected) _
          (wait_connected-Steady env.on_connected)
          λ _.
            bind-Steady w ⊥ v e (try errors env.join_group) _ (try-Steady w ⊥ errors env.join_group)
              λ _.
                bind-Steady w ⊥ v e (wait_joined env.on_joined) _ (wait_joined-Steady env.on_joined)
                  λ _.
                    bind-Steady w ⊥ v e (try errors env.send_to_group) _
                      (try-Steady w ⊥ errors env.send_to_group) λ _. echo_loop-Steady env.on_echo

-- Every call of Execute returns. It takes back what it adds to cntInProgress; and if it returns nil it
-- counts one success and no error, and if it returns an error one error and no success.
pub execute-Settles : (env : Env) → Settles (execute env).0 (execute env).1
unfolding execute
execute-Settles env = tracked-Settles (execute_body env) (λ w. execute_body-Steady w env)
