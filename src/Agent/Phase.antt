-- ===== src/Agent/Phase.antt =====
-- AgentController.runPhase and executeSession of agent/agent_controller.go. `plan_phase` is the loop
-- over the session names up to the `go` statement; each launcher that it starts is a state machine
-- of its own, whose steps the scheduler, the timer and the sessions choose.
use sigbench.Prelude.{
  ℕ, ◌+◌, ◌-◌, String, Bool, true, false, ◌&&◌, List, [], ◌∷◌, Option, none, some, Outcome,
  returned, panicked, index_out_of_range, bad_size, fatal, ◌>>=◌, lookup, is_neg, ltb, leb, not,
  if◌then◌else◌, Result, run_steps,
}
use sigbench.Base.{Job, JobPhase, get_duration}
use sigbench.Agent.Users.{Floats, get_session_users}

-- What the goroutine of one session name works with; `capacity` is that of `sessUserChan`.
pub record Launcher (S : Type 0) : Type 0 where
  pub session : S
  pub capacity : ℕ
  pub after : ℕ

-- `job.SessionPercentages[idx]` on what is left of the list.
unfoldable pub head_percentage : {F : Type 0} → List F → Outcome F
head_percentage [] = panicked index_out_of_range
head_percentage (p ∷ ps) = returned p

abbrev pub rest_percentages : {F : Type 0} → List F → List F
rest_percentages [] = []
rest_percentages (p ∷ ps) = ps

-- `sessions.SessionMap[sessionName]`; log.Fatalln on a name that is missing.
unfoldable pub find_session : {S : Type 0} → String → List (String × S) → Outcome S
find_session name sessions = elim (lookup name sessions) [
  | none ↦ panicked fatal
  | some s ↦ returned s
]

-- `make(chan struct{}, n)`
unfoldable pub make_chan : ℕ → Outcome ℕ
make_chan n = if is_neg n then panicked bad_size else returned n

module _ {S E : Type 0} (parse_duration : String → Result E ℕ) (fuel : ℕ) (fl : Floats)
    (sessions : List (String × S)) (phase : JobPhase) (agent_count agent_idx : ℕ) where
  unfoldable pub plan_sessions : List String → List fl.F → Outcome (List (Launcher S))
  unfolding head_percentage find_session make_chan
  plan_sessions [] percentages = returned []
  plan_sessions (name ∷ names) percentages =
      let rest = plan_sessions names (rest_percentages percentages) in
      do
        percentage ← head_percentage percentages
        users ← get_session_users fuel fl phase percentage agent_count agent_idx
        session ← find_session name sessions
        capacity ← make_chan users
        launchers ← rest
        returned (
            record {
              session = session;
              capacity = capacity;
              after = get_duration parse_duration phase;
            }
            ∷ launchers)

  unfoldable pub plan_phase : Job fl.F → Outcome (List (Launcher S))
  unfolding plan_sessions
  plan_phase job = plan_sessions job.session_names job.session_percentages

-- AgentController.Run: the phases one after another.
unfoldable pub plan_run :
    {S E : Type 0}
    → (String → Result E ℕ)
    → ℕ
    → (fl : Floats) → List (String × S)
    → ℕ
    → ℕ
    → Job fl.F
    → List JobPhase
    → Outcome (List (List (Launcher S)))
unfolding plan_phase
plan_run parse_duration fuel fl sessions n i job [] = returned []
plan_run parse_duration fuel fl sessions n i job (phase ∷ phases) =
    plan_phase parse_duration fuel fl sessions phase n i job >>= λ launchers.
    plan_run parse_duration fuel fl sessions n i job phases >>= λ rest. returned (launchers ∷ rest)

-- One launcher: the users in `sessUserChan`, the count of `wg`, how many goroutines of
-- executeSession stand at each of its points, and whether the launcher has left its loop and has
-- called swg.Done.
pub record Crew : Type 0 where
  pub capacity : ℕ
  pub buffered : ℕ
  pub waiting : ℕ  -- the counter of `wg`
  pub starting : ℕ  -- before shortid.Generate
  pub executing : ℕ  -- in session.Execute
  pub sleeping : ℕ  -- in the sleep after an error
  pub releasing : ℕ  -- before `<-done`
  pub signalling : ℕ  -- before wg.Done
  pub lost : ℕ  -- returned early: no user id
  pub finished : ℕ
  pub expired : Bool  -- the loop has taken `<-after`
  pub over : Bool  -- swg.Done was called

pub data Event : Type 0 where
  launch expire id_made id_failed session_done session_failed wake release signal leave : Event

unfoldable pub new_crew : ℕ → Crew
new_crew capacity = record {
  capacity = capacity;
  buffered = 0;
  waiting = 0;
  starting = 0;
  executing = 0;
  sleeping = 0;
  releasing = 0;
  signalling = 0;
  lost = 0;
  finished = 0;
  expired = false;
  over = false;
}

-- `none`: the event cannot happen there. A send blocks on a full channel, a receive on an empty one,
-- wg.Wait on a count that is not 0.
unfoldable pub step : Crew → Event → Option Crew
step c launch =
    if not c.expired && ltb c.buffered c.capacity
    then some
        (record c { buffered = c.buffered + 1; waiting = c.waiting + 1; starting = c.starting + 1 })
    else none
step c expire = if c.expired then none else some (record c { expired = true })
step c id_made =
    if ltb 0 c.starting
    then some (record c { starting = c.starting - 1; executing = c.executing + 1 })
    else none
step c id_failed =
    if ltb 0 c.starting
    then some (record c { starting = c.starting - 1; lost = c.lost + 1 })
    else none
step c session_done =
    if ltb 0 c.executing
    then some (record c { executing = c.executing - 1; releasing = c.releasing + 1 })
    else none
step c session_failed =
    if ltb 0 c.executing
    then some (record c { executing = c.executing - 1; sleeping = c.sleeping + 1 })
    else none
step c wake =
    if ltb 0 c.sleeping
    then some (record c { sleeping = c.sleeping - 1; releasing = c.releasing + 1 })
    else none
step c release =
    if ltb 0 c.releasing && ltb 0 c.buffered
    then some (record c {
      releasing = c.releasing - 1;
      buffered = c.buffered - 1;
      signalling = c.signalling + 1;
    })
    else none
step c signal =
    if ltb 0 c.signalling
    then some (record c {
      signalling = c.signalling - 1;
      waiting = c.waiting - 1;
      finished = c.finished + 1;
    })
    else none
step c leave =
    if c.expired && not c.over && leb c.waiting 0 then some (record c { over = true }) else none

abbrev pub run : Crew → List Event → Option Crew
run = run_steps step
