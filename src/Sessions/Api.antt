-- ===== src/Sessions/Api.antt =====
-- The interfaces of sessions/session.go, Session and CounterAggregator, as the agent and the master
-- use them: operations, and the law that a counters map names every counter once.
use sigbench.Prelude.{ℕ, String, List, Option, Outcome}
use sigbench.Base.{Job}
use sigbench.Counters.{Counters, IsMap}

abbrev pub Params : Type 0
Params = List (String × String)

pub record SessionApi (F E : Type 0) : Type 1 where
  -- The values behind the interface, each with its counters.
  pub Session : Type 0
  pub setup : Session → Params → Session × Option E
  pub counters : Session → Counters
  -- `sess.(CounterAggregator)`: AggregateCounters, if the session has it; its second argument is
  -- time.Now().
  pub aggregator : Session → Option (Job F → ℕ → Counters → Outcome Counters)
  pub counters-IsMap : (s : Session) → IsMap (counters s)
