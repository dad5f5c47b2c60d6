-- ===== src/Service/Handler.antt =====
-- HandleJobCreate of service/controllers.go as a sequence of the events of Service/Exclusive, when no
-- other request and no job gets in between.
use sigbench.Prelude.{
  ℕ, ◌+◌, ◌-◌, ◌≡◌, String, List, [], ◌∷◌, Option, none, some, Result, ok, err, if◌then◌else◌,
}
use sigbench.Base.{Job}
use sigbench.Service.Mux.{SigbenchMux, Response, is_busy, install}
use sigbench.Service.Exclusive.{System, Event, check, claim, register, register_fails, start, run}

-- The calls of RegisterAgent, up to the first that fails, and the job's goroutine behind them.
unfoldable pub agent_events : (String → Option String) → List String → List Event
agent_events dial [] = start ∷ []
agent_events dial (a ∷ rest) =
    let later = agent_events dial rest in
    elim (dial a) [ none ↦ register a ∷ later | some e ↦ register_fails ∷ [] ]

-- A request that is not read does nothing to the mux.
unfoldable pub handler_events :
    {F : Type 0}
    → (String → Option String)
    → Result Response (List String × Job F)
    → SigbenchMux
    → List Event
unfolding agent_events
handler_events dial (err response) c = []
handler_events dial (ok (agents, job)) c =
    if is_busy c then check ∷ [] else check ∷ claim job.name ∷ agent_events dial agents

abbrev pub is_none : {A : Type 0} → Option A → ℕ
is_none none = 1
is_none (some a) = 0

abbrev pub is_some : {A : Type 0} → Option A → ℕ
is_some none = 0
is_some (some a) = 1

-- Where the events lead, by the mux at the end, and how many jobs have started.
record Leads (s : System) (es : List Event) (mux : SigbenchMux) (registering running : ℕ)
    : Type 0 where
  system : System
  runs : run s es ≡ some system
  same_mux : system.mux ≡ mux
  same_passed : system.passed ≡ s.passed
  same_registering : system.registering ≡ registering
  same_running : system.running ≡ running

-- The tests and the installation, for a request that was read.
module _ {F : Type 0} (dial : String → Option String) (agents : List String) (job : Job F)
    (s : System) where
  abbrev claimed : System
  claimed = record s {
    mux = install job.name s.mux;
    passed = s.passed + 1 - 1;
    registering = s.registering + 1;
  }
