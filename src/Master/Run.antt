-- ===== src/Master/Run.antt =====
-- MasterController.Run, setupAllAgents and watchCounters of master/master_controller.go. The answers of
-- the agents, and the ticks at which the counters are collected, are arguments.
use sigbench.Prelude.{
  ℕ, suc, String, List, [], ◌∷◌, Option, none, some, Outcome, returned, panicked, fatal, ◌>>=◌,
  length, All,
}
use sigbench.Base.{Job}
use sigbench.Counters.{Counters, IsMap}
use sigbench.Sessions.Api.{SessionApi}
use sigbench.Snapshot.Memory.{MemorySnapshotWriter, write_memory}
use sigbench.Snapshot.Aggregated.{WriterApi}
use sigbench.Master.Collect.{collect_counters, AllLeave}

pub record AgentRunArgs (F : Type 0) : Type 0 where
  pub job : Job F
  pub agent_count : ℕ
  pub agent_idx : ℕ

-- `log.Fatalln(err)` in the goroutine of an agent ends the process.
unfoldable pub setup_all_agents : {E : Type 0} → List (Option E) → Outcome (Unit {0})
setup_all_agents [] = returned tt
setup_all_agents (some e ∷ rest) = panicked fatal
setup_all_agents (none ∷ rest) = setup_all_agents rest

-- The arguments of the calls of AgentController.Run, from the i-th agent on.
unfoldable pub run_args : {F : Type 0} → Job F → ℕ → List String → ℕ → List (AgentRunArgs F)
run_args job agent_count [] i = []
run_args job agent_count (agent ∷ rest) i =
    record { job = job; agent_count = agent_count; agent_idx = i }
    ∷ run_args job agent_count rest (suc i)

-- A collection: the time, and the agents' replies to ListCounters.
pub record Collection (E : Type 0) : Type 0 where
  pub now : ℕ
  pub replies : List (Counters × Option E)

module _ {F E : Type 0} (api : SessionApi F E) (writers : WriterApi) where
  open api use {Session}
  open writers use {Writer, write_counters}

  -- `c.SnapshotWriter.WriteCounters(time.Now(), c.collectCounters(job))`: an error is at most logged.
  unfoldable pub snapshot : List (String × Session) → Job F → Collection E → Writer → Outcome Writer
  snapshot sessions job c w = collect_counters api sessions job c.now c.replies >>= λ counters.
      returned (write_counters c.now counters w).0

  -- The loop, up to the stop.
  unfoldable pub watch_counters :
      List (String × Session) → Job F → List (Collection E) → Writer → Outcome Writer
  unfolding snapshot
  watch_counters sessions job [] w = returned w
  watch_counters sessions job (tick ∷ ticks) w =
      snapshot sessions job tick w >>= watch_counters sessions job ticks

  -- The calls that Run makes of the agents, and its writer at the end. `now` is the time at the start,
  -- `setups` are the results of AgentController.Setup, `ticks` the collections of watchCounters before
  -- its stop and `last` the one behind it.
  unfoldable pub run :
      List (String × Session)
      → List String
      → Job F
      → ℕ
      → List (Option E)
      → List (Collection E)
      → Collection E
      → Writer
      → Outcome (List (AgentRunArgs F) × Writer)
  unfolding setup_all_agents run_args watch_counters snapshot
  run sessions agents job now setups ticks last w =
      let started : Job F = record job { start_time = now } in
      setup_all_agents setups >>= λ _. watch_counters sessions started ticks w >>= λ w'.
      snapshot sessions started last w' >>= λ w''.
      returned (run_args started (length agents) agents 0, w'')

-- The memory writer alone, behind the interface.
abbrev pub memory : WriterApi
memory = record {
  Writer = MemorySnapshotWriter;
  write_counters = λ now counters w. write_memory now counters w;
}

module _ {F E : Type 0} (api : SessionApi F E) where
  open api use {Session}

  -- Every aggregator returns at the collection's time and leaves the counter at the key; the replies are
  -- maps.
  abbrev pub IsSound : List (String × Session) → Job F → String → Collection E → Type 0
  IsSound sessions job j c = AllLeave api job c.now j sessions × All (λ r. IsMap r.0) c.replies
