-- ===== src/Sessions/Registry.antt =====
-- Three implementations of the interfaces of sessions/session.go, those of sessions/http_get.go,
-- sessions/webpubsub_echo.go and sessions/signalr_core_echo.go: Setup, Counters and AggregateCounters, as
-- the agent and the master call them.
use sigbench.Prelude.{ℕ, refl, String, Option, none, some, Outcome, has_key}
use sigbench.Base.{Job}
use sigbench.Counters.{Counters, IsMap}
use sigbench.Sessions.Api.{SessionApi, Params}
use sigbench.Sessions.Echo
use sigbench.Sessions.HttpGet
use sigbench.Sessions.WebPubSub
use sigbench.Sessions.SignalrEcho

pub data Session : Type 0 where
  http_get : (HttpGet.Field → ℕ) → Session
  web_pub_sub : (Echo.Field → ℕ) → Session
  signalr_echo : (Echo.Field → ℕ) → Session

unfoldable pub session_counters : Session → Counters
unfolding HttpGet.counters WebPubSub.counters SignalrEcho.counters
session_counters (http_get s) = HttpGet.counters s
session_counters (web_pub_sub s) = WebPubSub.counters s
session_counters (signalr_echo s) = SignalrEcho.counters s

-- Setup sets the counters to 0; that of HttpGetSession also makes a client, and fails if a QUIC
-- connection does: `quic` is that error.
unfoldable pub setup_session : (Params → Option String) → Session → Params → Session × Option String
setup_session quic (http_get s) params = (http_get HttpGet.setup, quic params)
setup_session quic (web_pub_sub s) params = (web_pub_sub WebPubSub.setup, none)
setup_session quic (signalr_echo s) params = (signalr_echo SignalrEcho.setup, none)

-- Only HttpGetSession has AggregateCounters.
unfoldable pub session_aggregator :
    {F : Type 0} → Session → Option (Job F → ℕ → Counters → Outcome Counters)
session_aggregator (http_get s) = some HttpGet.aggregate_counters
session_aggregator (web_pub_sub s) = none
session_aggregator (signalr_echo s) = none

-- No session names a counter twice.
pub session_counters-IsMap : (s : Session) → IsMap (session_counters s)
unfolding session_counters has_key
session_counters-IsMap (http_get s) = (refl, (refl, (refl, (refl, (refl, (refl, (refl, tt)))))))
session_counters-IsMap (web_pub_sub s) = (refl, (refl, (refl, tt)))
session_counters-IsMap (signalr_echo s) = (refl, (refl, (refl, tt)))

abbrev pub registry : (F : Type 0) → (Params → Option String) → SessionApi F String
registry F quic = record {
  Session = Session;
  setup = setup_session quic;
  counters = session_counters;
  aggregator = session_aggregator;
  counters-IsMap = session_counters-IsMap;
}
