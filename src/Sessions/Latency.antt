-- ===== src/Sessions/Latency.antt =====
-- logLatency of sessions/signalr_core_broadcast_sender.go, which sessions/signalr_fx_broadcast_sender.go
-- and sessions/redis_pubsub.go repeat: four counters by milliseconds.
use sigbench.Prelude.{ℕ, lt64, if◌then◌else◌}

pub data Bucket : Type 0 where
  less_than_100ms less_than_500ms less_than_1000ms more_than_1000ms : Bucket

-- The counter that a latency of so many milliseconds adds to.
unfoldable pub latency_bucket : ℕ → Bucket
latency_bucket latency =
    if lt64 latency 100
    then less_than_100ms
    else if lt64 latency 500
    then less_than_500ms
    else if lt64 latency 1000
    then less_than_1000ms
    else more_than_1000ms
