-- ===== src/Sessions/Sender/Weights.antt =====
-- What the additions of the connected part of a broadcast sender weigh, with its errors alone.
use sigbench.Prelude.{
  ℕ, zero, suc, ◌≡◌, refl, String, Option, none, some, Result, err, bad_size, is_neg, minus_one,
  arith,
}
use sigbench.Sessions.Latency.{Bucket, latency_bucket}
use sigbench.Sessions.Script.{pure, add, panic, try}
use sigbench.Sessions.Script.Rules.{Steady, bind-Steady, try-Steady, if-Steady, silent-Steady}
use sigbench.Sessions.Sender.{
  Field, connected, errors, close_error, success, messages_send, latency, Env, rounds,
  make_recv_chan, receive_one, send_loop, receive_loop, close_session, connected_part,
  when_connected,
}

pub make_recv_chan-Steady :
    {C : Type 0} (w : C × ℕ → ℕ) (e secs : ℕ) → Steady w (Unit {0}) 0 e (make_recv_chan secs)
unfolding make_recv_chan
make_recv_chan-Steady w e secs =
    if-Steady w (Unit {0}) 0 e (is_neg secs) (panic bad_size) (pure tt) tt refl

-- A weight that counts none of the additions but its errors.
pub record Still (w : Field × ℕ → ℕ) : Type 0 where
  pub sent : w (messages_send, 1) ≡ 0
  pub timed : (b : Bucket) → w (latency b, 1) ≡ 0
  pub ended : w (success, 1) ≡ 0
  pub ended_late : w (close_error, 1) ≡ 0
  pub joined : w (connected, 1) ≡ 0
  pub parted : w (connected, minus_one) ≡ 0

module _ (w : Field × ℕ → ℕ) (e : ℕ) (s : w (errors, 1) ≡ e) (q : Still w) (env : Env) where
  tries : {A : Type 0} (r : Result String A) → Steady w (Unit {0}) 0 e (try errors r)
  tries r = rw (← s) (try-Steady w (Unit {0}) errors r)

  send_loop-Steady : (n i : ℕ) → Steady w (Unit {0}) 0 e (send_loop env n i)
  unfolding send_loop
  send_loop-Steady zero i = refl
  send_loop-Steady (suc n) i =
      bind-Steady w (Unit {0}) 0 e (try errors (env.serialize i)) _ (tries (env.serialize i)) λ _.
        bind-Steady w (Unit {0}) 0 e (try errors (env.send i)) _ (tries (env.send i)) λ _.
          bind-Steady w (Unit {0}) 0 e (add messages_send 1) _ (omega (arith, q.sent))
            λ _. send_loop-Steady n (suc i)

  receive_one-Steady : (o : Option ℕ) → Steady w (Unit {0}) 0 e (receive_one o)
  unfolding receive_one
  receive_one-Steady none =
      tries {A = ℕ} (err "fail receive all self broadcast messages within timeout")
  receive_one-Steady (some ms) = refl

  receive_loop-Steady : (n i : ℕ) → Steady w (Unit {0}) 0 e (receive_loop env n i)
  unfolding receive_loop
  receive_loop-Steady zero i = refl
  receive_loop-Steady (suc n) i =
      bind-Steady w (Unit {0}) 0 e (receive_one (env.receive i)) _
        (receive_one-Steady (env.receive i))
        λ ms.
          bind-Steady w (Unit {0}) 0 e (add (latency (latency_bucket ms)) 1) _
            (omega (arith, q.timed (latency_bucket ms))) λ _. receive_loop-Steady n (suc i)

  close_session-Steady : Steady w (Unit {0}) 0 e (close_session env)
  unfolding close_session
  close_session-Steady =
      if-Steady w (Unit {0}) 0 e env.closed (add success 1) (add close_error 1)
        (omega (arith, q.ended)) (omega (arith, q.ended_late))

  connected_part-Steady : (secs : ℕ) → Steady w (Unit {0}) 0 e (connected_part env secs)
  unfolding connected_part
  connected_part-Steady secs =
      bind-Steady w (Unit {0}) 0 e (send_loop env (rounds secs) 0) _
        (send_loop-Steady (rounds secs) 0)
        λ _.
          bind-Steady w (Unit {0}) 0 e (receive_loop env (rounds secs) 0) _
            (receive_loop-Steady (rounds secs) 0)
            λ _.
              bind-Steady w (Unit {0}) 0 e (try errors env.close) _ (tries env.close)
                λ _. close_session-Steady

  pub when_connected-Steady : (secs : ℕ) → Steady w (Unit {0}) 0 e (when_connected env secs)
  unfolding when_connected
  when_connected-Steady secs =
      bind-Steady w (Unit {0}) 0 e (add connected 1) _ (omega (arith, q.joined)) λ _.
        silent-Steady w (Unit {0}) 0 e minus_one connected (connected_part env secs) q.parted
          (connected_part-Steady secs)
