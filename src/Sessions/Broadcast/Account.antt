-- ===== src/Sessions/Broadcast/Account.antt =====
-- What one call of Execute of sessions/signalr_core_broadcast_sender.go does to the counters.
use sigbench.Prelude.{ℕ, ◌≡◌, List, sum_of, word_mod}
use sigbench.Sessions.Script.{Ending, value, error, crash, blocked}
use sigbench.Sessions.Broadcast.{Field}
use sigbench.Sessions.Broadcast.Weights.{
  to_in_progress, to_errors, to_ends, to_messages_send, to_latencies,
}
use sigbench.Sessions.Sender

-- How a call of Execute ends, by what it adds to the fields.
abbrev pub Accounts : ℕ → List (Field × ℕ) → Ending (Unit {0}) → Type 0
Accounts n adds (value _) =
    (sum_of to_in_progress adds ≡ word_mod)
    × (sum_of to_errors adds ≡ 0)
    × (sum_of to_messages_send adds ≡ n)
    × (sum_of to_latencies adds ≡ n)
    × (sum_of to_ends adds ≡ 1)
Accounts n adds (error e) = (sum_of to_in_progress adds ≡ word_mod) × (sum_of to_errors adds ≡ 1)
Accounts n adds (crash p) = Unit {0}
Accounts n adds blocked = ⊥
