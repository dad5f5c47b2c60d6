-- ===== src/Service/Exclusive.antt =====
-- Concurrent requests to HandleJobCreate of service/controllers.go: the sections under c.lock are
-- atomic, and everything between them may interleave.
use sigbench.Prelude.{
  ℕ, ◌+◌, ◌-◌, ◌≡◌, refl, String, List, Option, none, some, arith, ltb, if◌then◌else◌, run_steps,
  run_steps_rule,
}
use sigbench.Service.Mux.{
  ServiceConfig, SigbenchMux, new_mux, is_busy, install, add_agent, release_controller,
}

-- The mux, and how many handlers and jobs stand at each point: handlers that have passed the test under
-- RLock and wait for Lock; handlers in the loop of RegisterAgent; jobs in MasterController.Run; and
-- handlers that have returned because an agent could not be registered.
pub record System : Type 0 where
  pub mux : SigbenchMux
  pub passed : ℕ
  pub registering : ℕ
  pub running : ℕ
  pub failed : ℕ

pub data Event : Type 0 where
  -- a handler tests masterController under RLock
  check : Event
  -- a handler that has passed tests it again under Lock, and installs a controller for its job
  claim : String → Event
  -- RegisterAgent succeeds, or fails
  register : String → Event
  register_fails : Event
  -- `go func() { … }()`
  start : Event
  -- the job has run, and masterController is reset under Lock
  finish : Event

unfoldable pub new_system : ServiceConfig → System
new_system config = record {
  mux = new_mux config;
  passed = 0;
  registering = 0;
  running = 0;
  failed = 0;
}

-- `none`: no handler or job stands where the event would happen.
unfoldable pub step : System → Event → Option System
step s check = some (if is_busy s.mux then s else record s { passed = s.passed + 1 })
step s (claim name) =
    if ltb 0 s.passed
    then (if is_busy s.mux
        then some (record s { passed = s.passed - 1 })
        else some (record s {
          mux = install name s.mux;
          passed = s.passed - 1;
          registering = s.registering + 1;
        }))
    else none
step s (register address) =
    if ltb 0 s.registering then some (record s { mux = add_agent address s.mux }) else none
step s register_fails =
    if ltb 0 s.registering
    then some (record s { registering = s.registering - 1; failed = s.failed + 1 })
    else none
step s start =
    if ltb 0 s.registering
    then some (record s { registering = s.registering - 1; running = s.running + 1 })
    else none
step s finish =
    if ltb 0 s.running
    then some (record s { mux = release_controller s.mux; running = s.running - 1 })
    else none

abbrev pub run : System → List Event → Option System
run = run_steps step

abbrev pub busy_count : SigbenchMux → ℕ
busy_count c = if is_busy c then 1 else 0

-- Whoever holds the controller: at most one handler or job, or a handler that is gone.
abbrev pub IsOwned : System → Type 0
IsOwned s = s.registering + s.running + s.failed ≡ busy_count s.mux

pub new_system-IsOwned : (config : ServiceConfig) → IsOwned (new_system config)
unfolding new_system new_mux
new_system-IsOwned config = refl

pub step-IsOwned : (s t : System) (e : Event) → IsOwned s → step s e ≡ some t → IsOwned t
unfolding step install add_agent release_controller
step-IsOwned s t check v h = ground arith
step-IsOwned s t _ v h = ground arith

-- Over every interleaving of requests and jobs from the start, the handlers that register agents, the
-- jobs that run and the handlers that failed to register one are together as many as there are
-- controllers: one if masterController is set, and none if it is nil. So two jobs never run at once.
pub run-exclusive :
    (config : ServiceConfig) (es : List Event) (s : System)
    → run (new_system config) es ≡ some s
    → s.registering + s.running + s.failed ≡ busy_count s.mux
run-exclusive config es s h =
    run_steps_rule step IsOwned (λ a b e p k. step-IsOwned a b e p k) (new_system config) s es
      (new_system-IsOwned config) h
