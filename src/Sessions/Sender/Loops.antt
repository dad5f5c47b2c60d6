-- ===== src/Sessions/Sender/Loops.antt =====
-- What the loops and the end of a broadcast sender weigh.
use sigbench.Prelude.{
  ℕ, zero, suc, ◌+◌, ◌*◌, ◌≡◌, refl, String, Option, none, some, Result, arith, minus_one,
}
use mathlib.Core.Path.{subst}
use sigbench.Sessions.Latency.{Bucket, latency_bucket}
use sigbench.Sessions.Script.{add, try}
use sigbench.Sessions.Script.Rules.{
  Steady, try-Steady, Tally, bind-Tally, silent-Tally, Steady-Tally, if-Tally,
}
use sigbench.Sessions.Sender.{
  Field, connected, errors, close_error, success, messages_send, latency, Env, rounds, receive_one,
  send_loop, receive_loop, close_session, connected_part, when_connected,
}

-- What reaches the end: weights of the two loops and of the end.
module _ (w : Field × ℕ → ℕ) (s : w (errors, 1) ≡ 0) (env : Env) (a b c : ℕ)
    (sent : w (messages_send, 1) ≡ a) (timed : (k : Bucket) → w (latency k, 1) ≡ b)
    (ended : w (success, 1) ≡ c) (ended_late : w (close_error, 1) ≡ c)
    (joined : w (connected, 1) ≡ 0) (parted : w (connected, minus_one) ≡ 0) where
  tried : {A : Type 0} (r : Result String A) → Steady w (Unit {0}) 0 0 (try errors r)
  tried r = subst (λ e. Steady w (Unit {0}) 0 e (try errors r)) s (try-Steady w (Unit {0}) errors r)

  pub tries-Tally : {A : Type 0} (r : Result String A) → Tally w 0 (try errors r)
  tries-Tally r = Steady-Tally w (Unit {0}) 0 0 (try errors r).0 (try errors r).1 (tried r)

  send_loop-Tally : (n i : ℕ) → Tally w (n * a) (send_loop env n i)
  unfolding send_loop
  send_loop-Tally zero i = omega arith
  send_loop-Tally (suc n) i =
      let total : 0 + (0 + (a + n * a)) ≡ suc n * a = omega arith in
      subst (λ x. Tally w x (send_loop env (suc n) i)) total
        (bind-Tally w (Unit {0}) 0 (0 + (a + n * a)) (try errors (env.serialize i)) _
          (tries-Tally (env.serialize i))
          λ _.
            bind-Tally w (Unit {0}) 0 (a + n * a) (try errors (env.send i)) _
              (tries-Tally (env.send i))
              λ _.
                bind-Tally w (Unit {0}) a (n * a) (add messages_send 1) _ (omega (arith, sent))
                  λ _. send_loop-Tally n (suc i))

  pub receive_one-Tally : (o : Option ℕ) → Tally w 0 (receive_one o)
  unfolding receive_one
  receive_one-Tally none = tt
  receive_one-Tally (some ms) = refl

  pub receive_loop-Tally : (n i : ℕ) → Tally w (n * b) (receive_loop env n i)
  unfolding receive_loop
  receive_loop-Tally zero i = omega arith
  receive_loop-Tally (suc n) i =
      let total : 0 + (b + n * b) ≡ suc n * b = omega arith in
      subst (λ x. Tally w x (receive_loop env (suc n) i)) total
        (bind-Tally w (Unit {0}) 0 (b + n * b) (receive_one (env.receive i)) _
          (receive_one-Tally (env.receive i))
          λ ms.
            bind-Tally w (Unit {0}) b (n * b) (add (latency (latency_bucket ms)) 1) _
              (omega (arith, timed (latency_bucket ms))) λ _. receive_loop-Tally n (suc i))

  close_session-Tally : Tally w c (close_session env)
  unfolding close_session
  close_session-Tally =
      if-Tally w (Unit {0}) c env.closed (add success 1) (add close_error 1) (omega (arith, ended))
        (omega (arith, ended_late))

  connected_part-Tally :
      (secs : ℕ) → Tally w (rounds secs * a + (rounds secs * b + (0 + c))) (connected_part env secs)
  unfolding connected_part
  connected_part-Tally secs =
      bind-Tally w (Unit {0}) (rounds secs * a) (rounds secs * b + (0 + c))
        (send_loop env (rounds secs) 0) _ (send_loop-Tally (rounds secs) 0)
        λ _.
          bind-Tally w (Unit {0}) (rounds secs * b) (0 + c) (receive_loop env (rounds secs) 0) _
            (receive_loop-Tally (rounds secs) 0)
            λ _.
              bind-Tally w (Unit {0}) 0 c (try errors env.close) _ (tries-Tally env.close)
                λ _. close_session-Tally

  pub when_connected-Tally :
      (secs : ℕ) → Tally w (rounds secs * a + (rounds secs * b + c)) (when_connected env secs)
  unfolding when_connected
  when_connected-Tally secs =
      let total : 0 + (rounds secs * a + (rounds secs * b + (0 + c)))
          ≡ rounds secs * a + (rounds secs * b + c) =
        omega arith in
      subst (λ x. Tally w x (when_connected env secs)) total
        (bind-Tally w (Unit {0}) 0 (rounds secs * a + (rounds secs * b + (0 + c))) (add connected 1)
          _ (omega (arith, joined))
          λ _.
            silent-Tally w (Unit {0}) (rounds secs * a + (rounds secs * b + (0 + c))) minus_one
              connected (connected_part env secs) parted (connected_part-Tally secs))

-- A weight that counts the messages sent.
pub sent-Tally :
    (w : Field × ℕ → ℕ)
    → w (errors, 1) ≡ 0
    → (env : Env) → w (messages_send, 1) ≡ 1
    → ((k : Bucket) → w (latency k, 1) ≡ 0)
    → w (success, 1) ≡ 0
    → w (close_error, 1) ≡ 0
    → w (connected, 1) ≡ 0
    → w (connected, minus_one) ≡ 0
    → (secs : ℕ) → Tally w (rounds secs) (when_connected env secs)
sent-Tally w s env sent timed ended late joined parted secs =
    let total : rounds secs * 1 + (rounds secs * 0 + 0) ≡ rounds secs = omega arith in
    subst (λ x. Tally w x (when_connected env secs)) total
      (when_connected-Tally w s env 1 0 0 sent timed ended late joined parted secs)

-- One that counts the latencies.
pub timed-Tally :
    (w : Field × ℕ → ℕ)
    → w (errors, 1) ≡ 0
    → (env : Env) → w (messages_send, 1) ≡ 0
    → ((k : Bucket) → w (latency k, 1) ≡ 1)
    → w (success, 1) ≡ 0
    → w (close_error, 1) ≡ 0
    → w (connected, 1) ≡ 0
    → w (connected, minus_one) ≡ 0
    → (secs : ℕ) → Tally w (rounds secs) (when_connected env secs)
timed-Tally w s env sent timed ended late joined parted secs =
    let total : rounds secs * 0 + (rounds secs * 1 + 0) ≡ rounds secs = omega arith in
    subst (λ x. Tally w x (when_connected env secs)) total
      (when_connected-Tally w s env 0 1 0 sent timed ended late joined parted secs)

-- One that counts the ends.
pub ended-Tally :
    (w : Field × ℕ → ℕ)
    → w (errors, 1) ≡ 0
    → (env : Env) → w (messages_send, 1) ≡ 0
    → ((k : Bucket) → w (latency k, 1) ≡ 0)
    → w (success, 1) ≡ 1
    → w (close_error, 1) ≡ 1
    → w (connected, 1) ≡ 0
    → w (connected, minus_one) ≡ 0
    → (secs : ℕ) → Tally w 1 (when_connected env secs)
ended-Tally w s env sent timed ended late joined parted secs =
    let total : rounds secs * 0 + (rounds secs * 0 + 1) ≡ 1 = omega arith in
    subst (λ x. Tally w x (when_connected env secs)) total
      (when_connected-Tally w s env 0 0 1 sent timed ended late joined parted secs)
