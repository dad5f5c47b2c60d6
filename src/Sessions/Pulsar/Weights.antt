-- ===== src/Sessions/Pulsar/Weights.antt =====
-- What the goroutine of a queue of sessions/pulsar_massive_queue.go weighs.
use sigbench.Prelude.{
  ℕ, zero, suc, ◌+◌, ◌*◌, ◌≡◌, refl, String, Bool, true, false, List, [], ◌∷◌, ◌++◌, Option, some,
  Result, ok, err, arith, sum_of, minus_one, if◌then◌else◌,
}
use sigbench.Sessions.Script.{
  Ending, value, error, crash, blocked, Script, after, ◌>>◌, add, defer, deferred, Returns,
}
use sigbench.Sessions.Script.Rules.{sum_of-append}
use sigbench.Sessions.Sender.{rounds}
use sigbench.Sessions.Pulsar.{
  Field, in_progress, errors, success, published, QueueEnv, receive_loop, await_exit, or_fail,
  publish_loop, unsubscribing, with_consumer, do_queue, counted, queue_thread,
}

-- The script comes to an end, and weighs `v`.
module _ (w : Field × ℕ → ℕ) where
  abbrev pub Sums : ℕ → Script Field (Unit {0}) → Type 0
  Sums v m = (sum_of w m.0 ≡ v) × Returns m.1

  -- It returns nil.
  abbrev Passes : ℕ → Script Field (Unit {0}) → Type 0
  Passes v m = (sum_of w m.0 ≡ v) × (m.1 ≡ value tt)

  after-Sums :
      (u v : ℕ) (adds : List (Field × ℕ)) (r : Ending (Unit {0})) (k : Script Field (Unit {0}))
      → sum_of w adds ≡ u
      → r ≡ value tt
      → Sums v k
      → Sums (u + v) (after adds r (λ _. k))
  after-Sums u v adds (value a) k h e (s, r) = (omega (arith, sum_of-append w adds k.0, h, s), r)
  after-Sums u v adds (error x) k h e s = absurd cc
  after-Sums u v adds (crash x) k h e s = absurd cc
  after-Sums u v adds blocked k h e s = absurd cc

  next-Sums :
      (u v : ℕ) (m k : Script Field (Unit {0})) → Passes u m → Sums v k → Sums (u + v) (m >> k)
  next-Sums u v m k (h, e) s = after-Sums u v m.0 m.1 k h e s

module _ (w : Field × ℕ → ℕ) (a : ℕ) (failed : w (errors, 1) ≡ a) (sent : w (published, 1) ≡ a)
    (env : QueueEnv) where
  publish_loop-Passes : (n i : ℕ) → Passes w (n * a) (publish_loop env n i)
  unfolding publish_loop
  publish_loop-Passes zero i = (omega arith, refl)
  publish_loop-Passes (suc n) i =
      let (later, e) = publish_loop-Passes n (suc i) in
      elim (env.send i)
        as (λ r. Passes w (suc n * a) (elim r [
          | ok _ ↦ add published 1 >> publish_loop env n (suc i)
          | err _ ↦ add errors 1 >> publish_loop env n (suc i)
        ])) [ ok _ ↦ (omega (arith, sent, later), e) | err _ ↦ (omega (arith, failed, later), e) ]

  received-Sums :
      (i : ℕ) (r : Result String (Unit {0})) (later : List (Option String))
      → Sums w 0 (await_exit later)
      → Sums w 0 (await_exit (elim r [ ok _ ↦ later | err e ↦ some "Fail to consume" ∷ later ]))
  unfolding await_exit
  received-Sums i (ok x) later h = h
  received-Sums i (err e) later h = (refl, tt)

  late-Sums :
      (late : Bool) (later : List (Option String))
      → Sums w 0 (await_exit later)
      → Sums w 0 (await_exit (if late then some "Subscriber timeout" ∷ [] else later))
  unfolding await_exit
  late-Sums true later h = (refl, tt)
  late-Sums false later h = h

  await_exit-Sums : (n i : ℕ) → Sums w 0 (await_exit (receive_loop env n i))
  unfolding receive_loop await_exit
  await_exit-Sums zero i = (refl, tt)
  await_exit-Sums (suc n) i =
      late-Sums (env.late i) _
        (received-Sums i (env.receive i) (receive_loop env n (suc i)) (await_exit-Sums n (suc i)))

  with_consumer-Sums : (m : ℕ) → Sums w (rounds m * a + 0) (with_consumer m env)
  unfolding with_consumer
  with_consumer-Sums m =
      next-Sums w (rounds m * a) 0 (publish_loop env (rounds m) 0)
        (await_exit (receive_loop env (rounds m) 0)) (publish_loop-Passes (rounds m) 0)
        (await_exit-Sums (rounds m) 0)

  deferred-sum : (r : Ending (Unit {0})) → Returns r → sum_of w (deferred errors 1 r) ≡ a
  deferred-sum (value x) h = omega (arith, failed)
  deferred-sum (error x) h = omega (arith, failed)
  deferred-sum (crash x) h = absurd h
  deferred-sum blocked h = absurd h

-- A failed call, as a number of errors.
abbrev pub failures : Result String (Unit {0}) → ℕ
failures (ok x) = 0
failures (err e) = 1

abbrev pub if_connected : Result String (Unit {0}) → Result String (Unit {0}) → ℕ → ℕ
if_connected (err e) subscribed v = 0
if_connected (ok x) (err e) v = 0
if_connected (ok x) (ok y) v = v

-- What a call of doQueue adds to errors and to messages published, together: one for each message, and
-- one if the consumer cannot unsubscribe, as soon as there is a consumer.
abbrev pub attempts : ℕ → QueueEnv → ℕ
attempts m env =
    if_connected env.create_producer env.subscribe (rounds m + failures env.unsubscribe)

module _ (w : Field × ℕ → ℕ) (a : ℕ) (failed : w (errors, 1) ≡ a) (sent : w (published, 1) ≡ a)
    (m : ℕ) (env : QueueEnv) where
  unsubscribing-Sums :
      (v : ℕ) (k : Script Field (Unit {0}))
      → Sums w v k
      → Sums w (v + failures env.unsubscribe * a) (unsubscribing m env k)
  unfolding unsubscribing
  unsubscribing-Sums v k (s, r) =
      elim env.unsubscribe
        as (λ x. Sums w (v + failures x * a) (elim x [ ok _ ↦ k | err _ ↦ defer errors 1 k ])) [
          | ok _ ↦ (omega (arith, s), r)
          | err _ ↦ (
            omega (
              arith,
              sum_of-append w k.0 (deferred errors 1 k.1),
              s,
              deferred-sum w a failed sent env k.1 r,
            ),
            r,
          )
        ]

  connected-Sums :
      (p q : Result String (Unit {0})) (v : ℕ) (k : Script Field (Unit {0}))
      → Sums w (v * a) k
      → Sums w (if_connected p q v * a) (or_fail p >> or_fail q >> k)
  connected-Sums (err e) q v k h = (omega arith, tt)
  connected-Sums (ok x) (err e) v k h = (omega arith, tt)
  connected-Sums (ok x) (ok y) v k h = h

  pub queue_body-Sums : Sums w (attempts m env * a) (
      or_fail env.create_producer
      >> or_fail env.subscribe
      >> unsubscribing m env (with_consumer m env))
  queue_body-Sums =
      let v = rounds m + failures env.unsubscribe in
      let (s, r) =
        unsubscribing-Sums (rounds m * a + 0) (with_consumer m env)
          (with_consumer-Sums w a failed sent env m) in
      connected-Sums env.create_producer env.subscribe v (unsubscribing m env (with_consumer m env))
        (grind (arith, s), r)

  two_more :
      (adds : List (Field × ℕ)) (x y : Field × ℕ)
      → sum_of w ((adds ++ x ∷ []) ++ y ∷ []) ≡ sum_of w adds + w x + w y
  two_more adds x y =
      omega (arith, sum_of-append w (adds ++ x ∷ []) (y ∷ []), sum_of-append w adds (x ∷ []))

  -- What the goroutine adds, before and behind the body of doQueue.
  around :
      (adds : List (Field × ℕ)) (r : Ending (Unit {0}))
      → sum_of w adds ≡ attempts m env * a
      → Returns r
      → sum_of w
          (((in_progress, 1) ∷ (adds ++ deferred in_progress minus_one r)) ++ counted m env r)
        ≡ w (in_progress, 1)
          + attempts m env * a
          + w (in_progress, minus_one)
          + sum_of w (counted m env r)
  around adds (value x) s r = omega (arith, two_more adds (in_progress, minus_one) (success, 1), s)
  around adds (error x) s r = omega (arith, two_more adds (in_progress, minus_one) (errors, 1), s)
  around adds (crash x) s r = absurd r
  around adds blocked s r = absurd r

  pub queue_thread-sum :
      sum_of w (queue_thread m env)
      ≡ w (in_progress, 1)
        + attempts m env * a
        + w (in_progress, minus_one)
        + sum_of w (counted m env (do_queue m env).1)
  unfolding queue_thread do_queue
  queue_thread-sum =
      let body =
        or_fail env.create_producer
        >> or_fail env.subscribe
        >> unsubscribing m env (with_consumer m env) in
      around body.0 body.1 queue_body-Sums.0 queue_body-Sums.1
