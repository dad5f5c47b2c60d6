-- ===== src/Sessions/Redis/Account.antt =====
-- What one call of Execute of sessions/redis_pubsub.go counts, its subscriber left out.
use sigbench.Prelude.{
  ℕ, ◌+◌, ◌*◌, ◌≡◌, refl, String, List, [], ◌∷◌, ◌++◌, Result, ok, err, Outcome, returned, panicked,
  running, arith, sum_of, minus_one, word_mod,
}
use mathlib.Core.Path.{subst}
use sigbench.Sessions.Api.{Params}
use sigbench.Sessions.Script.{
  Ending, value, error, crash, blocked, Script, ◌>>=◌, or_crash, try, deferred,
}
use sigbench.Sessions.Script.Rules.{WeighsValue, Tally, sum_of-append, bind-Tally}
use sigbench.Sessions.Script.Rules.Quiet.{Charge, Charges, Charge-Tally}
use sigbench.Sessions.Sender.{broadcast_duration, rounds, make_recv_chan}
use sigbench.Sessions.Redis.{
  Field, in_progress, errors, error_not_recv_all, success, messages_send, latency, Env,
  total_msg_cnt, wait_start, when_connected, execute_body, execute,
}
use sigbench.Sessions.Redis.Weights.{
  Even, make_recv_chan-Charge, wait_start-Charge, execute_body-Charge, when_connected-Tally,
}

abbrev pub to_in_progress : Field × ℕ → ℕ
to_in_progress (in_progress, d) = d
to_in_progress (_, d) = 0

-- To either of the two counters of errors.
abbrev pub to_failures : Field × ℕ → ℕ
to_failures (errors, d) = d
to_failures (error_not_recv_all, d) = d
to_failures (_, d) = 0

abbrev pub to_success : Field × ℕ → ℕ
to_success (success, d) = d
to_success (_, d) = 0

abbrev pub to_messages_send : Field × ℕ → ℕ
to_messages_send (messages_send, d) = d
to_messages_send (_, d) = 0

abbrev pub to_latencies : Field × ℕ → ℕ
to_latencies (latency b, d) = d
to_latencies (_, d) = 0

-- The messages that a call of Execute is to send in so many seconds, at one in every interval.
abbrev pub planned : Outcome ℕ → ℕ
planned (returned n) = rounds n
planned (panicked p) = 0
planned running = 0

abbrev pub messages : ℕ → Result String ℕ → ℕ
messages secs (ok interval) = planned (total_msg_cnt secs interval)
messages secs (err e) = 0

-- The whole of the call, for a weight that counts `f n` on the way to the end of `n` messages.
module _ (w : Field × ℕ → ℕ) (failed : w (errors, 1) ≡ 0) (env : Env) (f : ℕ → ℕ)
    (rest : (n : ℕ) → Tally w (f n) (when_connected env n)) where
  skip :
      {A : Type 0} (v : ℕ) (m : Script Field A) (k : A → Script Field (Unit {0}))
      → Charge w 0 m
      → ((a : A) → Tally w v (k a))
      → Tally w v (m >>= k)
  skip v m k h later =
      subst (λ x. Tally w x (m >>= k)) (omega arith)
        (bind-Tally w ⊥ 0 v m k (Charge-Tally w 0 m h) later)

  planned-Tally :
      (o : Outcome ℕ)
      → Tally w (f (planned o)) (
          or_crash o >>= λ n.
          make_recv_chan n >>= λ _. wait_start env.subscribe >>= λ _. when_connected env (rounds n))
  planned-Tally (returned n) =
      skip (f (rounds n)) (make_recv_chan n) _ (make_recv_chan-Charge w 0 failed n) λ _.
        skip (f (rounds n)) (wait_start env.subscribe) _
          (wait_start-Charge w 0 failed env.subscribe) λ _. rest (rounds n)
  planned-Tally (panicked p) = tt
  planned-Tally running = tt

  messages-Tally :
      (secs : ℕ) (r : Result String ℕ)
      → Tally w (f (messages secs r)) (
          try errors r >>= λ interval. or_crash (total_msg_cnt secs interval) >>= λ n.
          make_recv_chan n >>= λ _. wait_start env.subscribe >>= λ _. when_connected env (rounds n))
  messages-Tally secs (ok interval) = planned-Tally (total_msg_cnt secs interval)
  messages-Tally secs (err e) = tt

  execute_body-Tally : (secs : ℕ) → Tally w (f (messages secs env.interval)) (execute_body env secs)
  unfolding execute_body
  execute_body-Tally secs = messages-Tally secs env.interval

-- How a call of Execute ends, by what it adds to the fields, with `n` messages to send.
abbrev pub Accounts : ℕ → List (Field × ℕ) → Ending (Unit {0}) → Type 0
Accounts n adds (value _) =
    (sum_of to_in_progress adds ≡ word_mod)
    × (sum_of to_failures adds ≡ 0)
    × (sum_of to_messages_send adds ≡ n)
    × (sum_of to_latencies adds ≡ n)
    × (sum_of to_success adds ≡ 1)
Accounts n adds (error e) = (sum_of to_in_progress adds ≡ word_mod) × (sum_of to_failures adds ≡ 1)
Accounts n adds (crash p) = sum_of to_in_progress adds ≡ word_mod
Accounts n adds blocked = (sum_of to_in_progress adds ≡ 1) × (sum_of to_failures adds ≡ 0)

around :
    (w : Field × ℕ → ℕ) (adds last : List (Field × ℕ))
    → sum_of w ((in_progress, 1) ∷ (adds ++ last))
      ≡ w (in_progress, 1) + sum_of w adds + sum_of w last
around w adds last = omega (arith, sum_of-append w adds last)

ends_lem :
    (n : ℕ) (adds : List (Field × ℕ)) (r : Ending (Unit {0}))
    → Charges to_in_progress 0 adds r
    → Charges to_failures 1 adds r
    → WeighsValue to_messages_send n adds r
    → WeighsValue to_latencies n adds r
    → WeighsValue to_success 1 adds r
    → Accounts n ((in_progress, 1) ∷ (adds ++ deferred in_progress minus_one r)) r
ends_lem n adds (value a) p e m l k =
    let last : List (Field × ℕ) = (in_progress, minus_one) ∷ [] in
    (
      omega (arith, around to_in_progress adds last, p),
      omega (arith, around to_failures adds last, e),
      omega (arith, around to_messages_send adds last, m),
      omega (arith, around to_latencies adds last, l),
      omega (arith, around to_success adds last, k),
    )
ends_lem n adds (error x) p e m l k =
    let last : List (Field × ℕ) = (in_progress, minus_one) ∷ [] in
    (
      omega (arith, around to_in_progress adds last, p),
      omega (arith, around to_failures adds last, e),
    )
ends_lem n adds (crash x) p e m l k =
    omega (arith, around to_in_progress adds ((in_progress, minus_one) ∷ []), p)
ends_lem n adds blocked p e m l k =
    (omega (arith, around to_in_progress adds [], p), omega (arith, around to_failures adds [], e))

in_progress-Even : Even to_in_progress 0
in_progress-Even = record {
  failed = refl;
  failed_late = refl;
  sent = refl;
  timed = λ b. refl;
  ended = refl;
  joined = refl;
  parted = refl;
}

failures-Even : Even to_failures 1
failures-Even = record {
  failed = refl;
  failed_late = refl;
  sent = refl;
  timed = λ b. refl;
  ended = refl;
  joined = refl;
  parted = refl;
}

-- What a call of Execute counts itself, its subscriber left out: if it returns nil, one success, no
-- failure, and as many messages sent, and latencies, as fit the seconds of the broadcast at one in
-- every interval; if it returns an error, exactly one failure, as an error or as messages not received;
-- and in both cases, and after a panic, nothing is left in progress. If it waits for ever, it is still
-- in progress, and has counted no failure.
pub redis_execute-Accounts :
    (env : Env) (atoi : String → Result String ℕ) (params : Params)
    → Accounts
        (messages (broadcast_duration atoi params) env.interval)
        (execute env atoi params).0
        (execute env atoi params).1
unfolding execute
redis_execute-Accounts env atoi params =
    let secs = broadcast_duration atoi params in
    let n = messages secs env.interval in
    let body = execute_body env secs in
    let sent : n * 1 + n * 0 + 0 ≡ n = omega arith in
    let timed : n * 0 + n * 1 + 0 ≡ n = omega arith in
    let ended : n * 0 + n * 0 + 1 ≡ 1 = omega arith in
    ends_lem n body.0 body.1 (execute_body-Charge to_in_progress 0 in_progress-Even env secs)
      (execute_body-Charge to_failures 1 failures-Even env secs)
      (subst (λ x. Tally to_messages_send x body) sent
        (execute_body-Tally to_messages_send refl env (λ x. x * 1 + x * 0 + 0)
          (when_connected-Tally to_messages_send 1 0 0 refl refl refl (λ k. refl) refl refl refl
            env)
          secs))
      (subst (λ x. Tally to_latencies x body) timed
        (execute_body-Tally to_latencies refl env (λ x. x * 0 + x * 1 + 0)
          (when_connected-Tally to_latencies 0 1 0 refl refl refl (λ k. refl) refl refl refl env)
          secs))
      (subst (λ x. Tally to_success x body) ended
        (execute_body-Tally to_success refl env (λ x. x * 0 + x * 0 + 1)
          (when_connected-Tally to_success 0 0 1 refl refl refl (λ k. refl) refl refl refl env)
          secs))
