-- ===== src/Sessions/FxBroadcast/Account.antt =====
-- What one call of Execute of sessions/signalr_fx_broadcast_sender.go does to the counters.
use sigbench.Prelude.{
  ℕ, ◌+◌, ◌≡◌, refl, String, List, [], ◌∷◌, ◌++◌, Bool, Result, err, arith, sum_of, minus_one,
  word_mod, str_eq, not,
}
use mathlib.Core.Path.{subst}
use sigbench.Sessions.Api.{Params}
use sigbench.Sessions.Script.{Ending, value, error, crash, blocked, pure, try, deferred, rename}
use sigbench.Sessions.Script.Rules.{
  Weighs, WeighsValue, Steady, Tally, sum_of-append, bind-Steady, try-Steady, if-Steady, skip-Tally,
  renamed, rename-Weighs, rename-WeighsValue,
}
use sigbench.Sessions.Sender
use sigbench.Sessions.Sender.{broadcast_duration, rounds, make_recv_chan}
use sigbench.Sessions.Sender.Weights.{Still, make_recv_chan-Steady, when_connected-Steady}
use sigbench.Sessions.Sender.Loops.{sent-Tally, timed-Tally, ended-Tally}
use sigbench.Sessions.FxBroadcast.{
  Field, in_progress, errors, close_error, success, messages_send, latency, on_sender, Env,
  wait_init, check_started, execute_body, execute,
}

abbrev pub to_in_progress : Field × ℕ → ℕ
to_in_progress (in_progress, d) = d
to_in_progress (_, d) = 0

abbrev pub to_errors : Field × ℕ → ℕ
to_errors (errors, d) = d
to_errors (_, d) = 0

-- To either of the two counters of a session that ran to its end.
abbrev pub to_ends : Field × ℕ → ℕ
to_ends (success, d) = d
to_ends (close_error, d) = d
to_ends (_, d) = 0

abbrev pub to_messages_send : Field × ℕ → ℕ
to_messages_send (messages_send, d) = d
to_messages_send (_, d) = 0

abbrev pub to_latencies : Field × ℕ → ℕ
to_latencies (latency b, d) = d
to_latencies (_, d) = 0

module _ (w : Field × ℕ → ℕ) (e : ℕ) (s : w (errors, 1) ≡ e) where
  tries : {A : Type 0} (r : Result String A) → Steady w (Unit {0}) 0 e (try errors r)
  tries r = subst (λ x. Steady w (Unit {0}) 0 x (try errors r)) s (try-Steady w (Unit {0}) errors r)

  wait_init-Steady : (b : Bool) → Steady w (Unit {0}) 0 e (wait_init b)
  unfolding wait_init
  wait_init-Steady b =
      if-Steady w (Unit {0}) 0 e b (pure tt) (try errors (err "no init message")) refl
        (tries {A = Unit {0}} (err "no init message"))

  check_started-Steady : (r : String) → Steady w (Unit {0}) 0 e (check_started r)
  unfolding check_started
  check_started-Steady r =
      if-Steady w (Unit {0}) 0 e (not (str_eq r "started")) (try errors (err r)) (pure tt)
        (tries {A = Unit {0}} (err r)) refl

  -- The part before the session counts as connected, with any weights behind it.
  body-Steady :
      (env : Env) (atoi : String → Result String ℕ) (params : Params) (v : ℕ)
      → Steady w
          (Unit {0})
          v
          e
          (rename on_sender (Sender.when_connected env.sender (broadcast_duration atoi params)))
      → Steady w (Unit {0}) v e (execute_body env atoi params)
  unfolding execute_body
  body-Steady env atoi params v rest =
      let secs = broadcast_duration atoi params in
      bind-Steady w (Unit {0}) v e (try errors env.new_request) _ (tries env.new_request) λ _.
        bind-Steady w (Unit {0}) v e (try errors env.handshake) _ (tries env.handshake) λ _.
          bind-Steady w (Unit {0}) v e (try errors env.decode) _ (tries env.decode) λ token.
            bind-Steady w (Unit {0}) v e (try errors env.dial) _ (tries env.dial) λ _.
              bind-Steady w (Unit {0}) v e (make_recv_chan secs) _ (make_recv_chan-Steady w e secs)
                λ _.
                  bind-Steady w (Unit {0}) v e (wait_init env.init) _ (wait_init-Steady env.init)
                    λ _.
                      bind-Steady w (Unit {0}) v e (try errors env.start_request) _
                        (tries env.start_request)
                        λ _.
                          bind-Steady w (Unit {0}) v e (try errors env.start) _ (tries env.start)
                            λ _.
                              bind-Steady w (Unit {0}) v e (try errors env.decode_start) _
                                (tries env.decode_start)
                                λ r.
                                  bind-Steady w (Unit {0}) v e (check_started r) _
                                    (check_started-Steady r) λ _. rest

  body-Tally :
      (env : Env) (atoi : String → Result String ℕ) (params : Params) (v : ℕ)
      → Tally w v
          (rename on_sender (Sender.when_connected env.sender (broadcast_duration atoi params)))
      → Tally w v (execute_body env atoi params)
  unfolding execute_body
  body-Tally env atoi params v rest =
      let secs = broadcast_duration atoi params in
      skip-Tally w (Unit {0}) v e (try errors env.new_request) _ (tries env.new_request) λ _.
        skip-Tally w (Unit {0}) v e (try errors env.handshake) _ (tries env.handshake) λ _.
          skip-Tally w (Unit {0}) v e (try errors env.decode) _ (tries env.decode) λ token.
            skip-Tally w (Unit {0}) v e (try errors env.dial) _ (tries env.dial) λ _.
              skip-Tally w (Unit {0}) v e (make_recv_chan secs) _ (make_recv_chan-Steady w e secs)
                λ _.
                  skip-Tally w (Unit {0}) v e (wait_init env.init) _ (wait_init-Steady env.init)
                    λ _.
                      skip-Tally w (Unit {0}) v e (try errors env.start_request) _
                        (tries env.start_request)
                        λ _.
                          skip-Tally w (Unit {0}) v e (try errors env.start) _ (tries env.start)
                            λ _.
                              skip-Tally w (Unit {0}) v e (try errors env.decode_start) _
                                (tries env.decode_start)
                                λ r.
                                  skip-Tally w (Unit {0}) v e (check_started r) _
                                    (check_started-Steady r) λ _. rest

-- How a call of Execute ends, by what it adds to the fields.
abbrev pub Accounts : ℕ → List (Field × ℕ) → Ending (Unit {0}) → Type 0
Accounts n adds (value _) =
    (sum_of to_in_progress adds ≡ word_mod)
    × (sum_of to_errors adds ≡ 0)
    × (sum_of to_messages_send adds ≡ n)
    × (sum_of to_latencies adds ≡ n)
    × (sum_of to_ends adds ≡ 1)
Accounts n adds (error e) = (sum_of to_in_progress adds ≡ word_mod) × (sum_of to_errors adds ≡ 1)
Accounts n adds (crash p) = Unit {0}
Accounts n adds blocked = ⊥

around :
    (w : Field × ℕ → ℕ) (adds : List (Field × ℕ))
    → sum_of w ((in_progress, 1) ∷ (adds ++ (in_progress, minus_one) ∷ []))
      ≡ w (in_progress, 1) + sum_of w adds + w (in_progress, minus_one)
around w adds = omega (arith, sum_of-append w adds ((in_progress, minus_one) ∷ []))

ends_lem :
    (n : ℕ) (adds : List (Field × ℕ)) (r : Ending (Unit {0}))
    → Weighs to_in_progress (Unit {0}) 0 0 adds r
    → Weighs to_errors (Unit {0}) 0 1 adds r
    → WeighsValue to_messages_send n adds r
    → WeighsValue to_latencies n adds r
    → WeighsValue to_ends 1 adds r
    → Accounts n ((in_progress, 1) ∷ (adds ++ deferred in_progress minus_one r)) r
ends_lem n adds (value a) p e m l k = (
  omega (arith, around to_in_progress adds, p),
  omega (arith, around to_errors adds, e),
  omega (arith, around to_messages_send adds, m),
  omega (arith, around to_latencies adds, l),
  omega (arith, around to_ends adds, k),
)
ends_lem n adds (error x) p e m l k =
    (omega (arith, around to_in_progress adds, p), omega (arith, around to_errors adds, e))
ends_lem n adds (crash x) p e m l k = tt
ends_lem n adds blocked p e m l k = p

in_progress-Still : Still (renamed on_sender to_in_progress)
in_progress-Still = record {
  sent = refl;
  timed = λ b. refl;
  ended = refl;
  ended_late = refl;
  joined = refl;
  parted = refl;
}

errors-Still : Still (renamed on_sender to_errors)
errors-Still = record {
  sent = refl;
  timed = λ b. refl;
  ended = refl;
  ended_late = refl;
  joined = refl;
  parted = refl;
}

-- Every call of Execute comes to an end or panics. On any return, what it added to cntInProgress has
-- been taken back; if it returns an error, it counted exactly one error; and if it returns nil, it
-- counted none, it counted as many messages sent as there are seconds in the broadcast's duration, as
-- many latencies, in one of the four counters each, and itself once, as a success or as a close
-- error.
pub fx_execute-Accounts :
    (env : Env) (atoi : String → Result String ℕ) (params : Params)
    → Accounts
        (rounds (broadcast_duration atoi params))
        (execute env atoi params).0
        (execute env atoi params).1
unfolding execute
fx_execute-Accounts env atoi params =
    let secs = broadcast_duration atoi params in
    let n = rounds secs in
    let body = execute_body env atoi params in
    let part = Sender.when_connected env.sender secs in
    ends_lem n body.0 body.1
      (body-Steady to_in_progress 0 refl env atoi params 0 (
        rename-Weighs on_sender to_in_progress (Unit {0}) 0 0 part.0 part.1 (
          when_connected-Steady (renamed on_sender to_in_progress) 0 refl in_progress-Still
            env.sender secs)))
      (body-Steady to_errors 1 refl env atoi params 0 (
        rename-Weighs on_sender to_errors (Unit {0}) 0 1 part.0 part.1 (
          when_connected-Steady (renamed on_sender to_errors) 1 refl errors-Still env.sender secs)))
      (body-Tally to_messages_send 0 refl env atoi params n (
        rename-WeighsValue on_sender to_messages_send n part.0 part.1 (
          sent-Tally (renamed on_sender to_messages_send) refl env.sender refl (λ k. refl) refl refl
            refl refl secs)))
      (body-Tally to_latencies 0 refl env atoi params n (
        rename-WeighsValue on_sender to_latencies n part.0 part.1 (
          timed-Tally (renamed on_sender to_latencies) refl env.sender refl (λ k. refl) refl refl
            refl refl secs)))
      (body-Tally to_ends 0 refl env atoi params 1 (
        rename-WeighsValue on_sender to_ends 1 part.0 part.1 (
          ended-Tally (renamed on_sender to_ends) refl env.sender refl (λ k. refl) refl refl refl
            refl secs)))
