-- ===== src/Sessions/Names/Distinct.antt =====
-- No session of SessionMap in sessions/session.go names a counter twice.
use Prim.Native.String.{◌++◌ as ◌^^◌}
use sigbench.Prelude.{ℕ, ◌≤◌, ◌≡◌, ◌≢◌, String}
use sigbench.Sessions.HttpGet
use sigbench.Sessions.WebPubSub
use sigbench.Sessions.SignalrEcho
use sigbench.Sessions.Broadcast
use sigbench.Sessions.FxBroadcast
use sigbench.Sessions.Redis
use sigbench.Sessions.RabbitMq.Queues
use sigbench.Sessions.Kafka
use sigbench.Sessions.Pulsar
use sigbench.Sessions.Names.{hit}

-- The names of the instances' counters.
module _ (itoa : ℕ → String) (itoa-inj : (i j : ℕ) → itoa i ≡ itoa j → i ≡ j)
    (s : Broadcast.Field → ℕ) where
  -- A name that is no instance's, or an instance's before `i`.
  IsOther : ℕ → String → Type 0
  IsOther i k = (j : ℕ) → i ≤ j → k ≢ ◌^^◌ hit (itoa j)
