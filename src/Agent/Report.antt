-- ===== src/Agent/Report.antt =====
-- What AgentController.Setup and ListCounters of agent/agent_controller.go guarantee.
use sigbench.Prelude.{
  ℕ, ◌+◌, ◌%◌, ◌≡◌, refl, ◌∙◌, String, false, List, [], ◌∷◌, Option, none, some, arith, lookup,
  str_eq_iff, has_key, if◌then◌else◌, word_mod, sum_of, inl, inr, Option-cases,
}
use native.Mathlib.Nat.{add_assoc, zero-add}
use sigbench.Counters.{
  get-empty, add_counters, Counters, IsMap, get, get-add_counters, lookup-set_counters,
}
use sigbench.Sessions.Api.{SessionApi, Params}
use sigbench.Agent.Users.{Floats}
use sigbench.Agent.Control.{
  CpuTimes, get_system_counters, requested, setup_sessions, list_session_counters, list_counters,
}

-- The map of the system counters names every counter once.
get_system_counters-IsMap :
    (fl : Floats) (t : Option (CpuTimes fl.F)) → IsMap (get_system_counters fl t)
unfolding get_system_counters has_key
get_system_counters-IsMap fl none = tt
get_system_counters-IsMap fl (some t) = (refl, (refl, (refl, (refl, (refl, tt)))))

module _ {F E : Type 0} (api : SessionApi F E) where
  open api use {Session, setup, counters, counters-IsMap}

  -- The value at a key of the session that a name stands for, 0 where it stands for none.
  abbrev pub session_value : List (String × Session) → String → String → ℕ
  session_value sessions j name = elim (lookup name sessions) [
    | none ↦ 0
    | some s ↦ get j (counters s)
  ]

  get-list_session_counters :
      (sessions : List (String × Session)) (j : String) (names : List String) (acc : Counters)
      (s : ℕ)
      → get j acc ≡ s % word_mod
      → get j (list_session_counters api sessions names acc)
        ≡ (s + sum_of (session_value sessions j) names) % word_mod
  unfolding list_session_counters
  get-list_session_counters sessions j [] acc s h = omega (arith, h)
  get-list_session_counters sessions j (name ∷ names) acc s h =
      elim (Option-cases (lookup name sessions)) [
        | inl e ↦
            rw (e, session_value, zero-add) (get-list_session_counters sessions j names acc s h)
        | inr (x, e) ↦
            rw (e, session_value)
              (get-list_session_counters sessions j names (add_counters acc (counters x))
                  (s + get j (counters x))
                  (get-add_counters j acc (counters x) s (counters-IsMap x) h)
                ∙ rw (add_assoc s (get j (counters x))))
      ]

  -- Whatever order maps are iterated in, the reply's counter at a key is the system counter, if there
  -- is one of that key, and else the sum modulo 2 ^ 64 over the requested names, each as often as it
  -- is requested, of the named session's counter (0 for a name that stands for no session).
  pub list_counters-sum :
      (sessions : List (String × Session)) (names : List String) (system : Counters) (j : String)
      → IsMap system
      → get j (list_counters api sessions names system) ≡ (
          if has_key j system
          then get j system
          else sum_of (session_value sessions j) names % word_mod)
  unfolding list_counters
  list_counters-sum sessions names system j d = ground (
    arith,
    lookup-set_counters j (list_session_counters api sessions names []) system d,
    get-list_session_counters sessions j names [] 0 (get-empty j),
  )

  -- What Setup makes of a session.
  abbrev pub configured : List String → Params → String → Session → Session
  configured names params name s = if requested names name then (setup s params).0 else s

  -- Whenever Setup returns no error, every session of the map whose name is requested has been set up
  -- with the parameters, and every other one is as it was.
  setup_sessions-configured :
      (names : List String) (params : Params) (sessions : List (String × Session)) (n : String)
      → (setup_sessions api names params sessions).1 ≡ none
      → lookup n (setup_sessions api names params sessions).0
        ≡ elim (lookup n sessions) [ none ↦ none | some s ↦ some (configured names params n s) ]
  unfolding setup_sessions lookup
  setup_sessions-configured names params [] n h = refl
  setup_sessions-configured names params ((name, s) ∷ rest) n h =
      ground (arith, setup_sessions-configured names params rest n, str_eq_iff name n)

  -- Setup leaves a session whose name is not requested as it was, also when it returns an error.
  setup_sessions-untouched :
      (names : List String) (params : Params) (sessions : List (String × Session)) (n : String)
      → requested names n ≡ false
      → lookup n (setup_sessions api names params sessions).0 ≡ lookup n sessions
  unfolding setup_sessions lookup
  setup_sessions-untouched names params [] n h = refl
  setup_sessions-untouched names params ((name, s) ∷ rest) n h =
      ground (arith, setup_sessions-untouched names params rest n, str_eq_iff name n)
