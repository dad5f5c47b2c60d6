-- ===== src/Agent/Control.antt =====
-- AgentController.Setup, ListCounters and getSystemCounters of agent/agent_controller.go, over the
-- sessions of SessionMap. gopsutil's process times are a parameter.
use sigbench.Prelude.{
  ℕ, String, Bool, true, false, List, [], ◌∷◌, Option, none, some, str_eq, lookup, ◌||◌,
}
use sigbench.Counters.{Counters, add_counters, set_counters}
use sigbench.Sessions.Api.{SessionApi, Params}
use sigbench.Agent.Users.{Floats}

-- gopsutil's cpu.TimesStat, with the result of its Total().
pub record CpuTimes (F : Type 0) : Type 0 where
  pub total : F
  pub user : F
  pub system : F
  pub softirq : F
  pub iowait : F

-- `int64(1000 * x)`
unfoldable pub millis : (fl : Floats) → fl.F → ℕ
millis fl x = fl.to_int64 (fl.mul (fl.from_int64 1000) x)

-- `none` if proc.Times() fails.
unfoldable pub get_system_counters : (fl : Floats) → Option (CpuTimes fl.F) → Counters
get_system_counters fl none = []
get_system_counters fl (some cput) =
    ("agent:cpu:total", millis fl cput.total)
    ∷ ("agent:cpu:user", millis fl cput.user)
    ∷ ("agent:cpu:system", millis fl cput.system)
    ∷ ("agent:cpu:softirq", millis fl cput.softirq)
    ∷ ("agent:cpu:iowait", millis fl cput.iowait)
    ∷ []

-- `_, ok := sessionNames[name]`
unfoldable pub requested : List String → String → Bool
requested [] name = false
requested (n ∷ ns) name = str_eq n name || requested ns name

module _ {F E : Type 0} (api : SessionApi F E) where
  open api use {Session, setup, counters}

  abbrev pub SessionMap : Type 0
  SessionMap = List (String × Session)

  -- The loop over SessionMap: the first error ends it.
  unfoldable pub setup_sessions :
      List String → Params → List (String × Session) → List (String × Session) × Option E
  unfolding requested
  setup_sessions names params [] = ([], none)
  setup_sessions names params ((name, s) ∷ rest) =
      let later = setup_sessions names params rest in
      elim (requested names name) [
        | false ↦ ((name, s) ∷ later.0, later.1)
        | true ↦ elim (setup s params).1 [
          | some e ↦ ((name, (setup s params).0) ∷ rest, some e)
          | none ↦ ((name, (setup s params).0) ∷ later.0, later.1)
        ]
      ]

  -- The loop over the session names.
  unfoldable pub list_session_counters : List (String × Session) → List String → Counters → Counters
  list_session_counters sessions [] acc = acc
  list_session_counters sessions (name ∷ names) acc =
      list_session_counters sessions names
        (elim (lookup name sessions) [ none ↦ acc | some s ↦ add_counters acc (counters s) ])

  unfoldable pub list_counters : List (String × Session) → List String → Counters → Counters
  list_counters sessions names system =
      set_counters (list_session_counters sessions names []) system
