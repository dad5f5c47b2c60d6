-- ===== src/Sessions/Kafka/Account.antt =====
-- What a call of Execute of sessions/kafka.go counts.
use sigbench.Prelude.{
  ℕ, zero, suc, ◌+◌, ◌≡◌, refl, String, List, [], ◌∷◌, ◌++◌, Result, ok, err, arith, minus_one,
  word_mod, sum_of,
}
use sigbench.Sessions.Script.{
  Ending, value, error, crash, blocked, Script, ◌>>=◌, ◌>>◌, add, try, deferred,
}
use sigbench.Sessions.Script.Rules.{
  Weighs, WeighsValue, Steady, Tally, bind-Steady, try-Steady, bind-Tally, skip-Tally,
  sum_of-append,
}
use sigbench.Sessions.Kafka.{
  Field, in_progress, errors, success, written, KafkaProducer, Env, write_loop, rounds,
  execute_body, execute,
}

abbrev pub to_in_progress : Field × ℕ → ℕ
to_in_progress (in_progress, d) = d
to_in_progress (_, d) = 0

abbrev pub to_errors : Field × ℕ → ℕ
to_errors (errors, d) = d
to_errors (_, d) = 0

abbrev pub to_success : Field × ℕ → ℕ
to_success (success, d) = d
to_success (_, d) = 0

abbrev pub to_written : Field × ℕ → ℕ
to_written (written, d) = d
to_written (_, d) = 0

-- What WriteMessages reports as written.
abbrev pub count_of : Result String ℕ → ℕ
count_of (ok n) = n
count_of (err e) = 0

-- The sum over `n` calls from the i-th on.
abbrev pub written_from : Env → ℕ → ℕ → ℕ
written_from env zero i = 0
written_from env (suc n) i = count_of (env.write i) + written_from env n (suc i)

module _ (w : Field × ℕ → ℕ) (no_write : (d : ℕ) → w (written, d) ≡ 0) (env : Env) where
  write_loop-Steady : (n i : ℕ) → Steady w ⊥ 0 (w (errors, 1)) (write_loop env n i)
  unfolding write_loop
  write_loop-Steady zero i = refl
  write_loop-Steady (suc n) i =
      bind-Steady w ⊥ 0 (w (errors, 1)) (try errors (env.write i)) _
        (try-Steady w ⊥ errors (env.write i))
        λ count.
          bind-Steady w ⊥ 0 (w (errors, 1)) (add written count) _ (omega (arith, no_write count))
            λ _. write_loop-Steady n (suc i)

  execute_body-Steady : (n : ℕ) → Steady w ⊥ (w (success, 1)) (w (errors, 1)) (execute_body env n)
  unfolding execute_body
  execute_body-Steady n =
      let v = w (success, 1) in
      let e = w (errors, 1) in
      bind-Steady w ⊥ v e (try errors env.partition) _ (try-Steady w ⊥ errors env.partition) λ p.
        bind-Steady w ⊥ v e (try errors env.dial) _ (try-Steady w ⊥ errors env.dial) λ _.
          bind-Steady w ⊥ v e (write_loop env (rounds n) 0) _ (write_loop-Steady (rounds n) 0)
            λ _. omega arith

module _ (env : Env) where
  write_one :
      (r : Result String ℕ) (t : ℕ) (later : Script Field (Unit {0}))
      → Tally to_written t later
      → Tally to_written (count_of r + t) (try errors r >>= λ count. add written count >> later)
  write_one (ok n) t later h =
      bind-Tally to_written (Unit {0}) n t (add written n) (λ _. later) (omega arith) (λ _. h)
  write_one (err e) t later h = tt

  write_loop-Tally : (n i : ℕ) → Tally to_written (written_from env n i) (write_loop env n i)
  unfolding write_loop
  write_loop-Tally zero i = refl
  write_loop-Tally (suc n) i =
      write_one (env.write i) (written_from env n (suc i)) (write_loop env n (suc i))
        (write_loop-Tally n (suc i))

  execute_body-Tally :
      (n : ℕ) → Tally to_written (written_from env (rounds n) 0 + 0) (execute_body env n)
  unfolding execute_body
  execute_body-Tally n =
      let v = written_from env (rounds n) 0 + 0 in
      skip-Tally to_written ⊥ v 0 (try errors env.partition) _
        (try-Steady to_written ⊥ errors env.partition)
        λ p.
          skip-Tally to_written ⊥ v 0 (try errors env.dial) _
            (try-Steady to_written ⊥ errors env.dial)
            λ _.
              bind-Tally to_written ⊥ (written_from env (rounds n) 0) 0
                (write_loop env (rounds n) 0) _ (write_loop-Tally (rounds n) 0) λ _. refl

-- How a call of Execute ends, by what it adds to the fields: `n` is what the calls of WriteMessages
-- report together.
abbrev pub Accounts : ℕ → List (Field × ℕ) → Ending (Unit {0}) → Type 0
Accounts n adds (value _) =
    (sum_of to_in_progress adds ≡ word_mod)
    × (sum_of to_errors adds ≡ 0)
    × (sum_of to_success adds ≡ 1)
    × (sum_of to_written adds ≡ n)
Accounts n adds (error e) =
    (sum_of to_in_progress adds ≡ word_mod)
    × (sum_of to_errors adds ≡ 1)
    × (sum_of to_success adds ≡ 0)
Accounts n adds (crash p) = ⊥
Accounts n adds blocked = ⊥

around :
    (w : Field × ℕ → ℕ) (adds : List (Field × ℕ))
    → sum_of w ((in_progress, 1) ∷ (adds ++ (in_progress, minus_one) ∷ []))
      ≡ w (in_progress, 1) + sum_of w adds + w (in_progress, minus_one)
around w adds = omega (arith, sum_of-append w adds ((in_progress, minus_one) ∷ []))

ends_lem :
    (n : ℕ) (adds : List (Field × ℕ)) (r : Ending (Unit {0}))
    → Weighs to_in_progress ⊥ 0 0 adds r
    → Weighs to_errors ⊥ 0 1 adds r
    → Weighs to_success ⊥ 1 0 adds r
    → WeighsValue to_written (n + 0) adds r
    → Accounts n ((in_progress, 1) ∷ (adds ++ deferred in_progress minus_one r)) r
ends_lem n adds (value a) p e s k = (
  omega (arith, around to_in_progress adds, p),
  omega (arith, around to_errors adds, e),
  omega (arith, around to_success adds, s),
  omega (arith, around to_written adds, k),
)
ends_lem n adds (error x) p e s k = (
  omega (arith, around to_in_progress adds, p),
  omega (arith, around to_errors adds, e),
  omega (arith, around to_success adds, s),
)
ends_lem n adds (crash x) p e s k = p
ends_lem n adds blocked p e s k = p

-- Every call of Execute returns, and what it added to cntInProgress has then been taken back. If it
-- returns nil it counted one success, no error, and as written what the calls of WriteMessages, as many
-- as the message count if that is not negative, report together; if it returns an error it counted one
-- error and no success.
pub kafka_execute-Accounts :
    (env : Env) (s : KafkaProducer)
    → Accounts (written_from env (rounds s.msg_cnt) 0) (execute env s).0 (execute env s).1
unfolding execute
kafka_execute-Accounts env s =
    let body = execute_body env s.msg_cnt in
    ends_lem (written_from env (rounds s.msg_cnt) 0) body.0 body.1
      (execute_body-Steady to_in_progress (λ d. refl) env s.msg_cnt)
      (execute_body-Steady to_errors (λ d. refl) env s.msg_cnt)
      (execute_body-Steady to_success (λ d. refl) env s.msg_cnt) (execute_body-Tally env s.msg_cnt)
