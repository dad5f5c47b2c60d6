-- ===== src/Master/Cover.antt =====
-- The calls of AgentController.Run that master/master_controller.go makes, with the shares of users that
-- agent/agent_controller.go computes from them.
use native.Mathlib.Nat.{zero-add}
use mathlib.Core.Path.{subst}
use sigbench.Prelude.{
  ℕ, suc, ◌+◌, ◌<◌, ◌≡◌, ◌∙◌, refl, String, List, [], ◌∷◌, Option, returned, >>=-eq-returned, arith,
  length, half_mod, sum_of, sum_below, All,
}
use sigbench.Base.{Job, JobPhase}
use sigbench.Sessions.Api.{SessionApi}
use sigbench.Snapshot.Aggregated.{WriterApi}
use sigbench.Agent.Users.{Floats, total_session_users, get_session_users}
use sigbench.Agent.Shares.{get_session_users-partition}
use sigbench.Master.Run.{
  AgentRunArgs, Collection, setup_all_agents, run_args, snapshot, watch_counters, run,
}

sum_of-run_args :
    {F : Type 0} (job : Job F) (n : ℕ) (share : ℕ → ℕ) (agents : List String) (i : ℕ)
    → sum_below i share + sum_of (λ a. share a.agent_idx) (run_args job n agents i)
      ≡ sum_below (i + length agents) share
unfolding run_args
sum_of-run_args job n share [] i = let same : i + 0 ≡ i = omega arith in rw same (omega arith)
sum_of-run_args job n share (a ∷ rest) i =
    let moved : i + suc (length rest) ≡ suc i + length rest = omega arith in
    rw moved (omega (arith, sum_of-run_args job n share rest (suc i)))

sum_of-all_run_args :
    {F : Type 0} (job : Job F) (share : ℕ → ℕ) (agents : List String)
    → sum_of (λ a. share a.agent_idx) (run_args job (length agents) agents 0)
      ≡ sum_below (length agents) share
sum_of-all_run_args job share agents =
    rw (zero-add, zero-add) at (sum_of-run_args job (length agents) share agents 0)

-- What every call of a run hands to its agent.
abbrev pub IsCall : {F : Type 0} → Job F → ℕ → AgentRunArgs F → Type 0
IsCall job n a = (a.job ≡ job) × (a.agent_count ≡ n)

run_args-All :
    {F : Type 0} (job : Job F) (n : ℕ) (agents : List String) (i : ℕ)
    → All (IsCall job n) (run_args job n agents i)
unfolding run_args
run_args-All job n [] i = tt
run_args-All job n (a ∷ rest) i = ((refl, refl), run_args-All job n rest (suc i))

run-calls :
    {F E : Type 0} (api : SessionApi F E) (writers : WriterApi)
    (sessions : List (String × api.Session)) (agents : List String) (job : Job F) (now : ℕ)
    (setups : List (Option E)) (ticks : List (Collection E)) (last : Collection E)
    (w w' : writers.Writer) (calls : List (AgentRunArgs F))
    → run api writers sessions agents job now setups ticks last w ≡ returned (calls, w')
    → run_args (record job { start_time = now }) (length agents) agents 0 ≡ calls
unfolding run
run-calls api writers sessions agents job now setups ticks last w w' calls h =
    let started : Job _ = record job { start_time = now } in
    let (_, _, h1) = >>=-eq-returned (setup_all_agents setups) _ h in
    let (v, _, h2) = >>=-eq-returned (watch_counters api writers sessions started ticks w) _ h1 in
    let (v', _, h3) = >>=-eq-returned (snapshot api writers sessions started last v) _ h2 in cc

-- Whenever Run of a master with one agent or more returns, every agent has been called with the job and
-- the number of agents; and for any phase and percentage whose total of users is not negative and adds
-- up with the number of agents to less than 2 ^ 63, each call obtains a number of users, and these
-- numbers add up to exactly the total.
pub run-covers :
    {E : Type 0} (fl : Floats) (api : SessionApi fl.F E) (writers : WriterApi)
    (sessions : List (String × api.Session)) (agents : List String) (job : Job fl.F) (now : ℕ)
    (setups : List (Option E)) (ticks : List (Collection E)) (last : Collection E)
    (w w' : writers.Writer) (calls : List (AgentRunArgs fl.F)) (phase : JobPhase)
    (percentage : fl.F)
    → run api writers sessions agents job now setups ticks last w ≡ returned (calls, w')
    → 0 < length agents
    → total_session_users fl phase percentage + length agents < half_mod
    → (users : AgentRunArgs fl.F → ℕ) × All
        (IsCall (record job { start_time = now }) (length agents))
        calls
      × ((a : AgentRunArgs fl.F)
          → get_session_users (length agents) fl phase percentage (length agents) a.agent_idx
            ≡ returned (users a))
      × (sum_of users calls ≡ total_session_users fl phase percentage)
run-covers fl api writers sessions agents job now setups ticks last w w' calls phase percentage h
      pos small =
    let n = length agents in
    let started : Job fl.F = record job { start_time = now } in
    let called = run-calls api writers sessions agents job now setups ticks last w w' calls h in
    let (share, each, all) =
      get_session_users-partition fl phase percentage n pos n (omega arith) small in
    (
      λ a. share a.agent_idx,
      subst (All (IsCall started n)) called (run_args-All started n agents 0),
      λ a. each a.agent_idx,
      subst (λ cs. sum_of (λ a. share a.agent_idx) cs ≡ total_session_users fl phase percentage)
          called (sum_of-all_run_args started share agents ∙ all),
    )
