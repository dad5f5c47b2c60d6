-- ===== src/Sessions/RabbitMq/Account.antt =====
-- What a call of Execute of sessions/rabbitmq_massive_queue.go counts, itself, over all its queues.
use sigbench.Prelude.{ℕ, suc, ◌+◌, ◌*◌, ◌<◌, ◌≤◌, ◌≡◌, List, sum_of, word_mod}
use sigbench.Sessions.Script.{Ending, value, error, crash, blocked, Script}
use sigbench.Sessions.RabbitMq.Queues.{Field}
use sigbench.Sessions.RabbitMq.OneQueue.{
  to_in_progress, to_errors, to_success, to_published, OneQueue,
}

-- How a call of Execute ends, with `n` queues of `m` messages: after `k` of the queues otherwise.
abbrev pub Accounts : ℕ → ℕ → List (Field × ℕ) → Ending (Unit {0}) → Type 0
Accounts n m adds (value _) =
    (sum_of to_in_progress adds ≡ n * word_mod)
    × (sum_of to_success adds ≡ n)
    × (sum_of to_published adds ≡ n * m)
Accounts n m adds (error e) =
    (k : ℕ) × (k < n)
    × (sum_of to_in_progress adds ≡ suc k * word_mod)
    × (sum_of to_success adds ≡ k)
    × (1 ≤ sum_of to_errors adds)
Accounts n m adds (crash p) = ⊥
Accounts n m adds blocked =
    (k : ℕ) × (k < n)
    × (sum_of to_in_progress adds ≡ k * word_mod + 1)
    × (sum_of to_success adds ≡ k)
