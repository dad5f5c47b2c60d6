-- ===== src/Sessions/Pulsar/Account.antt =====
-- What one call of Execute of sessions/pulsar_massive_queue.go counts, whatever the order in which its
-- goroutines get to their additions.
use sigbench.Prelude.{ℕ, zero, suc, ◌+◌}
use sigbench.Sessions.Pulsar.{Field, in_progress, errors, success, published, QueueEnv}
use sigbench.Sessions.Pulsar.Weights.{attempts}

abbrev pub to_in_progress : Field × ℕ → ℕ
to_in_progress (in_progress, d) = d
to_in_progress (_, d) = 0

abbrev pub to_success : Field × ℕ → ℕ
to_success (success, d) = d
to_success (_, d) = 0

-- To any of the counters of successes, errors and messages published.
abbrev pub to_results : Field × ℕ → ℕ
to_results (success, d) = d
to_results (errors, d) = d
to_results (published, d) = d
to_results (_, d) = 0

-- What the queues add to successes, errors and messages published: one for each, and their attempts.
abbrev pub results : ℕ → (ℕ → QueueEnv) → ℕ → ℕ → ℕ
results m env zero i = 0
results m env (suc n) i = suc (attempts m (env i)) + results m env n (suc i)
