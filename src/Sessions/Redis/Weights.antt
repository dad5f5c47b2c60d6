-- ===== src/Sessions/Redis/Weights.antt =====
-- What the steps of Execute of sessions/redis_pubsub.go weigh.
use sigbench.Prelude.{
  ℕ, zero, suc, ◌+◌, ◌*◌, ◌≡◌, refl, String, Option, none, some, Result, ok, err, Outcome, returned,
  panicked, running, arith, minus_one, is_neg, bad_size,
}
use mathlib.Core.Path.{subst}
use sigbench.Sessions.Latency.{Bucket, latency_bucket}
use sigbench.Sessions.Script.{◌>>◌, pure, add, panic, or_crash, try}
use sigbench.Sessions.Script.Rules.{Tally, silent-Tally, bind-Tally}
use sigbench.Sessions.Script.Rules.Quiet.{
  Charge, if-Charge, Charge-Tally, bind-Charge, try-Charge, defer-Charge,
}
use sigbench.Sessions.Sender.{rounds, make_recv_chan}
use sigbench.Sessions.Redis.{
  Field, connected, errors, error_not_recv_all, success, messages_send, latency, Env, total_msg_cnt,
  wait_start, receive_one, publish_loop, receive_loop, when_connected, execute_body,
}

-- Additions alike up to the end: `e` for each counter of errors, nothing for the others.
pub record Even (w : Field × ℕ → ℕ) (e : ℕ) : Type 0 where
  pub failed : w (errors, 1) ≡ e
  pub failed_late : w (error_not_recv_all, 1) ≡ e
  pub sent : w (messages_send, 1) ≡ 0
  pub timed : (b : Bucket) → w (latency b, 1) ≡ 0
  pub ended : w (success, 1) ≡ 0
  pub joined : w (connected, 1) ≡ 0
  pub parted : w (connected, minus_one) ≡ 0

module _ (w : Field × ℕ → ℕ) (e : ℕ) (failed : w (errors, 1) ≡ e) where
  or_crash-Charge : {A : Type 0} (o : Outcome A) → Charge w e (or_crash o)
  or_crash-Charge (returned a) = refl
  or_crash-Charge (panicked p) = refl
  or_crash-Charge running = refl

  pub make_recv_chan-Charge : (n : ℕ) → Charge w e (make_recv_chan n)
  unfolding make_recv_chan
  make_recv_chan-Charge n = if-Charge w e (is_neg n) (panic bad_size) (pure tt) refl refl

  pub wait_start-Charge : (r : Result String (Unit {0})) → Charge w e (wait_start r)
  unfolding wait_start
  wait_start-Charge (ok a) = refl
  wait_start-Charge (err x) = refl

  -- What stands before the increment of cntConnected.
  body-Charge :
      (env : Env) (secs : ℕ)
      → ((n : ℕ) → Charge w e (when_connected env n))
      → Charge w e (execute_body env secs)
  unfolding execute_body
  body-Charge env secs rest =
      bind-Charge w e (try errors env.interval) _ (try-Charge w e errors env.interval failed) λ i.
        bind-Charge w e (or_crash (total_msg_cnt secs i)) _ (or_crash-Charge (total_msg_cnt secs i))
          λ n. bind-Charge w e (make_recv_chan n) _ (make_recv_chan-Charge n) λ _.
            bind-Charge w e (wait_start env.subscribe) _ (wait_start-Charge env.subscribe)
              λ _. rest (rounds n)

module _ (w : Field × ℕ → ℕ) (e : ℕ) (q : Even w e) (env : Env) where
  publish_loop-Charge : (n i : ℕ) → Charge w e (publish_loop env n i)
  unfolding publish_loop
  publish_loop-Charge zero i = refl
  publish_loop-Charge (suc n) i =
      bind-Charge w e (try errors (env.marshal i)) _
        (try-Charge w e errors (env.marshal i) q.failed)
        λ _.
          bind-Charge w e (try errors (env.publish i)) _
            (try-Charge w e errors (env.publish i) q.failed)
            λ _.
              bind-Charge w e (add messages_send 1) _ (omega (arith, q.sent))
                λ _. publish_loop-Charge n (suc i)

  receive_one-Charge : (o : Option ℕ) → Charge w e (receive_one o)
  unfolding receive_one
  receive_one-Charge none = omega (arith, q.failed_late)
  receive_one-Charge (some ms) = refl

  receive_loop-Charge : (n i : ℕ) → Charge w e (receive_loop env n i)
  unfolding receive_loop
  receive_loop-Charge zero i = refl
  receive_loop-Charge (suc n) i =
      bind-Charge w e (receive_one (env.receive i)) _ (receive_one-Charge (env.receive i)) λ ms.
        bind-Charge w e (add (latency (latency_bucket ms)) 1) _
          (omega (arith, q.timed (latency_bucket ms))) λ _. receive_loop-Charge n (suc i)

  when_connected-Charge : (n : ℕ) → Charge w e (when_connected env n)
  unfolding when_connected
  when_connected-Charge n = bind-Charge w e (add connected 1) _ (omega (arith, q.joined)) λ _.
      defer-Charge w e connected minus_one
        (publish_loop env n 0 >> receive_loop env n 0 >> add success 1) q.parted
        (bind-Charge w e (publish_loop env n 0 >> receive_loop env n 0) _
          (bind-Charge w e (publish_loop env n 0) _ (publish_loop-Charge n 0)
            λ _. receive_loop-Charge n 0)
          λ _. omega (arith, q.ended))

  pub execute_body-Charge : (secs : ℕ) → Charge w e (execute_body env secs)
  execute_body-Charge secs = body-Charge w e q.failed env secs when_connected-Charge

-- A weight that reaches the end: `a` for each message sent, `b` for each latency, `c` for the success.
module _ (w : Field × ℕ → ℕ) (a b c : ℕ) (failed : w (errors, 1) ≡ 0)
    (failed_late : w (error_not_recv_all, 1) ≡ 0) (sent : w (messages_send, 1) ≡ a)
    (timed : (k : Bucket) → w (latency k, 1) ≡ b) (ended : w (success, 1) ≡ c)
    (joined : w (connected, 1) ≡ 0) (parted : w (connected, minus_one) ≡ 0) (env : Env) where
  tries-Tally : {A : Type 0} (r : Result String A) → Tally w 0 (try errors r)
  tries-Tally r = Charge-Tally w 0 (try errors r) (try-Charge w 0 errors r failed)

  publish_loop-Tally : (n i : ℕ) → Tally w (n * a) (publish_loop env n i)
  unfolding publish_loop
  publish_loop-Tally zero i = omega arith
  publish_loop-Tally (suc n) i =
      subst (λ x. Tally w x (publish_loop env (suc n) i)) (omega arith)
        (bind-Tally w ⊥ 0 (0 + (a + n * a)) (try errors (env.marshal i)) _
          (tries-Tally (env.marshal i))
          λ _.
            bind-Tally w ⊥ 0 (a + n * a) (try errors (env.publish i)) _
              (tries-Tally (env.publish i))
              λ _.
                bind-Tally w ⊥ a (n * a) (add messages_send 1) _ (omega (arith, sent))
                  λ _. publish_loop-Tally n (suc i))

  receive_one-Tally : (o : Option ℕ) → Tally w 0 (receive_one o)
  unfolding receive_one
  receive_one-Tally none = tt
  receive_one-Tally (some ms) = refl

  receive_loop-Tally : (n i : ℕ) → Tally w (n * b) (receive_loop env n i)
  unfolding receive_loop
  receive_loop-Tally zero i = omega arith
  receive_loop-Tally (suc n) i =
      subst (λ x. Tally w x (receive_loop env (suc n) i)) (omega arith)
        (bind-Tally w ⊥ 0 (b + n * b) (receive_one (env.receive i)) _
          (receive_one-Tally (env.receive i))
          λ ms.
            bind-Tally w ⊥ b (n * b) (add (latency (latency_bucket ms)) 1) _
              (omega (arith, timed (latency_bucket ms))) λ _. receive_loop-Tally n (suc i))

  pub when_connected-Tally : (n : ℕ) → Tally w (n * a + n * b + c) (when_connected env n)
  unfolding when_connected
  when_connected-Tally n =
      subst (λ x. Tally w x (when_connected env n)) (omega arith)
        (bind-Tally w ⊥ 0 (n * a + n * b + c) (add connected 1) _ (omega (arith, joined)) λ _.
          silent-Tally w ⊥ (n * a + n * b + c) minus_one connected
            (publish_loop env n 0 >> receive_loop env n 0 >> add success 1) parted
            (bind-Tally w ⊥ (n * a + n * b) c (publish_loop env n 0 >> receive_loop env n 0) _
              (bind-Tally w ⊥ (n * a) (n * b) (publish_loop env n 0) _ (publish_loop-Tally n 0)
                λ _. receive_loop-Tally n 0)
              λ _. omega (arith, ended)))
