-- ===== src/Sessions/RabbitMq/OneQueue.antt =====
-- What a call of doQueue of sessions/rabbitmq_massive_queue.go counts.
use sigbench.Prelude.{
  ℕ, zero, suc, ◌+◌, ◌≡◌, refl, String, List, [], ◌∷◌, ◌++◌, Option, none, some, Result, ok, err,
  arith, sum_of, minus_one, word_mod, is_neg, ◌||◌, ◌==◌,
}
use mathlib.Core.Path.{subst}
use sigbench.Sessions.Script.{
  Ending, value, error, crash, blocked, Script, ◌>>◌, pure, add, try, defer, deferred,
}
use sigbench.Sessions.Script.Rules.{
  WeighsValue, Tally, sum_of-append, bind-Tally, skip-Tally, try-Steady, silent-Tally, if-Tally,
  Steady-Tally,
}
use sigbench.Sessions.Script.Rules.Quiet.{
  Quiet, IsCalm, bind-Quiet, try-Quiet, defer-Quiet, if-Quiet,
}
use sigbench.Sessions.RabbitMq.Queues.{
  Field, in_progress, errors, success, published, QueueEnv, rounds, receive_loop, await_exit,
  or_fail, publish_loop, subscribe, with_queue, deleting, queue_body, do_queue,
}

abbrev pub to_in_progress : Field × ℕ → ℕ
to_in_progress (in_progress, d) = d
to_in_progress (_, d) = 0

abbrev pub to_errors : Field × ℕ → ℕ
to_errors (errors, d) = d
to_errors (_, d) = 0

abbrev pub to_success : Field × ℕ → ℕ
to_success (success, d) = d
to_success (_, d) = 0

abbrev pub to_published : Field × ℕ → ℕ
to_published (published, d) = d
to_published (_, d) = 0

-- A weight that counts neither errors nor what is published.
module _ (w : Field × ℕ → ℕ) (e : w (errors, 1) ≡ 0) (p : w (published, 1) ≡ 0) (m : ℕ)
    (env : QueueEnv) where
  publish_loop-Quiet : (n i : ℕ) → Quiet w ⊥ (publish_loop m env n i)
  unfolding publish_loop
  publish_loop-Quiet zero i = (refl, tt)
  publish_loop-Quiet (suc n) i =
      bind-Quiet w ⊥ (try errors (env.publish i)) _ (try-Quiet w ⊥ errors (env.publish i) e) λ _.
        bind-Quiet w ⊥ (add published 1) _ (omega (arith, p), tt) λ _. publish_loop-Quiet n (suc i)

  subscribe-Quiet : Quiet w ⊥ (subscribe m env)
  unfolding subscribe
  subscribe-Quiet =
      if-Quiet w ⊥ (is_neg m || m == 0) (pure tt)
        (try errors env.sub_channel >> try errors env.consume) (refl, tt)
        (bind-Quiet w ⊥ (try errors env.sub_channel) _ (try-Quiet w ⊥ errors env.sub_channel e)
          λ _. try-Quiet w ⊥ errors env.consume e)

  await_exit-Quiet : (r : Ending (Option String)) → Quiet w ⊥ (await_exit r)
  unfolding await_exit
  await_exit-Quiet (value none) = (refl, tt)
  await_exit-Quiet (value (some x)) = (refl, tt)
  await_exit-Quiet (error x) = (refl, tt)
  await_exit-Quiet (crash x) = (refl, tt)
  await_exit-Quiet blocked = (refl, tt)

  with_queue-Quiet : Quiet w ⊥ (with_queue m env)
  unfolding with_queue
  with_queue-Quiet = bind-Quiet w ⊥ (subscribe m env) _ subscribe-Quiet λ _.
      bind-Quiet w ⊥ (publish_loop m env (rounds m) 0) _ (publish_loop-Quiet (rounds m) 0)
        λ _. await_exit-Quiet (receive_loop env.delivery (rounds m) 0).1

  deleting-Quiet : (k : Script Field (Unit {0})) → Quiet w ⊥ k → Quiet w ⊥ (deleting m env k)
  unfolding deleting
  deleting-Quiet k q =
      elim env.delete_channel as (λ r. Quiet w ⊥ (elim r [ ok _ ↦ k | err _ ↦ defer errors 1 k ])) [
        | ok _ ↦ q
        | err _ ↦ defer-Quiet w ⊥ errors 1 k e q
      ]

  or_fail-Quiet : (r : Result String String) → Quiet w ⊥ (or_fail r)
  or_fail-Quiet (ok a) = (refl, tt)
  or_fail-Quiet (err x) = (refl, tt)

  queue_body-Quiet : Quiet w ⊥ (queue_body m env)
  unfolding queue_body
  queue_body-Quiet =
      bind-Quiet w ⊥ (try errors env.pub_channel) _ (try-Quiet w ⊥ errors env.pub_channel e) λ _.
        bind-Quiet w ⊥ (or_fail env.declare) _ (or_fail-Quiet env.declare)
          λ name. deleting-Quiet (with_queue m env) with_queue-Quiet

module _ (m : ℕ) (env : QueueEnv) where
  publish_loop-Tally : (n i : ℕ) → Tally to_published n (publish_loop m env n i)
  unfolding publish_loop
  publish_loop-Tally zero i = refl
  publish_loop-Tally (suc n) i =
      skip-Tally to_published ⊥ (suc n) 0 (try errors (env.publish i)) _
        (try-Steady to_published ⊥ errors (env.publish i))
        λ _.
          subst (λ x. Tally to_published x (add published 1 >> publish_loop m env n (suc i)))
            (omega arith)
            (bind-Tally to_published ⊥ 1 n (add published 1) _ refl
              λ _. publish_loop-Tally n (suc i))

  await_exit-Tally : (r : Ending (Option String)) → Tally to_published 0 (await_exit r)
  unfolding await_exit
  await_exit-Tally (value none) = refl
  await_exit-Tally (value (some x)) = tt
  await_exit-Tally (error x) = tt
  await_exit-Tally (crash x) = tt
  await_exit-Tally blocked = tt

  with_queue-Tally : Tally to_published (0 + (rounds m + 0)) (with_queue m env)
  unfolding with_queue subscribe
  with_queue-Tally =
      bind-Tally to_published ⊥ 0 (rounds m + 0) (subscribe m env) _
        (if-Tally to_published ⊥ 0 (is_neg m || m == 0) (pure tt)
          (try errors env.sub_channel >> try errors env.consume) refl
          (skip-Tally to_published ⊥ 0 0 (try errors env.sub_channel) _
            (try-Steady to_published ⊥ errors env.sub_channel)
            λ _.
              Steady-Tally to_published ⊥ 0 0 (try errors env.consume).0 (try errors env.consume).1
                (try-Steady to_published ⊥ errors env.consume)))
        λ _.
          bind-Tally to_published ⊥ (rounds m) 0 (publish_loop m env (rounds m) 0) _
            (publish_loop-Tally (rounds m) 0)
            λ _. await_exit-Tally (receive_loop env.delivery (rounds m) 0).1

  deleting-Tally :
      (v : ℕ) (k : Script Field (Unit {0}))
      → Tally to_published v k
      → Tally to_published v (deleting m env k)
  unfolding deleting
  deleting-Tally v k t =
      elim env.delete_channel
        as (λ r. Tally to_published v (elim r [ ok _ ↦ k | err _ ↦ defer errors 1 k ])) [
          | ok _ ↦ t
          | err _ ↦ silent-Tally to_published ⊥ v 1 errors k refl t
        ]

  or_fail-Tally : (r : Result String String) → Tally to_published 0 (or_fail r)
  or_fail-Tally (ok a) = refl
  or_fail-Tally (err x) = tt

  queue_body-Tally : Tally to_published (rounds m) (queue_body m env)
  unfolding queue_body
  queue_body-Tally =
      subst (λ x. Tally to_published x (queue_body m env)) (omega arith)
        (skip-Tally to_published ⊥ (0 + (0 + (rounds m + 0))) 0 (try errors env.pub_channel) _
          (try-Steady to_published ⊥ errors env.pub_channel)
          λ _.
            bind-Tally to_published ⊥ 0 (0 + (rounds m + 0)) (or_fail env.declare) _
              (or_fail-Tally env.declare)
              λ name. deleting-Tally (0 + (rounds m + 0)) (with_queue m env) with_queue-Tally)

-- What a call of doQueue adds, by how it ends: `m` messages at most are published.
abbrev pub OneQueue : ℕ → List (Field × ℕ) → Ending (Unit {0}) → Type 0
OneQueue m adds (value _) =
    (sum_of to_in_progress adds ≡ word_mod)
    × (sum_of to_success adds ≡ 0)
    × (sum_of to_published adds ≡ m)
OneQueue m adds (error e) = (sum_of to_in_progress adds ≡ word_mod) × (sum_of to_success adds ≡ 0)
OneQueue m adds (crash p) = ⊥
OneQueue m adds blocked = (sum_of to_in_progress adds ≡ 1) × (sum_of to_success adds ≡ 0)

around :
    (w : Field × ℕ → ℕ) (adds last : List (Field × ℕ))
    → sum_of w ((in_progress, 1) ∷ (adds ++ last))
      ≡ w (in_progress, 1) + sum_of w adds + sum_of w last
around w adds last = omega (arith, sum_of-append w adds last)

one_queue :
    (m : ℕ) (adds : List (Field × ℕ)) (r : Ending (Unit {0}))
    → sum_of to_in_progress adds ≡ 0
    → sum_of to_success adds ≡ 0
    → IsCalm to_in_progress ⊥ r
    → WeighsValue to_published m adds r
    → OneQueue m ((in_progress, 1) ∷ (adds ++ deferred in_progress minus_one r)) r
one_queue m adds (value a) p s c k = (
  omega (arith, around to_in_progress adds ((in_progress, minus_one) ∷ []), p),
  omega (arith, around to_success adds ((in_progress, minus_one) ∷ []), s),
  omega (arith, around to_published adds ((in_progress, minus_one) ∷ []), k),
)
one_queue m adds (error x) p s c k = (
  omega (arith, around to_in_progress adds ((in_progress, minus_one) ∷ []), p),
  omega (arith, around to_success adds ((in_progress, minus_one) ∷ []), s),
)
one_queue m adds (crash x) p s c k = c
one_queue m adds blocked p s c k =
    (omega (arith, around to_in_progress adds [], p), omega (arith, around to_success adds [], s))

pub do_queue-OneQueue :
    (m : ℕ) (env : QueueEnv) → OneQueue (rounds m) (do_queue m env).0 (do_queue m env).1
unfolding do_queue
do_queue-OneQueue m env =
    let body = queue_body m env in
    let quiet = queue_body-Quiet to_in_progress refl refl m env in
    one_queue (rounds m) body.0 body.1 quiet.0 (queue_body-Quiet to_success refl refl m env).0
      quiet.1 (queue_body-Tally m env)
