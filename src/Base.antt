-- ===== src/Base.antt =====
-- base/job.go: a benchmark job, its phases, and their validation. The type of the percentages
-- and time.ParseDuration are parameters.
pub mod Validation
use sigbench.Prelude.{
  ℕ, ◌≡◌, List, [], ◌∷◌, Option, none, some, String, arith, Result, ok, err, All, sub64,
}

pub record JobPhase : Type 0 where
  pub name : String
  pub users_per_second : ℕ  -- int64
  pub duration : String

-- Times are nanoseconds, as int64 patterns. `F` is float64.
pub record Job (F : Type 0) : Type 0 where
  pub name : String
  pub start_time : ℕ
  pub phases : List JobPhase
  pub session_names : List String
  pub session_percentages : List F
  pub session_params : List (String × String)

-- `now` is time.Now().
unfoldable pub job_duration : {F : Type 0} → Job F → ℕ → ℕ
job_duration job now = sub64 now job.start_time

module _ {E : Type 0} (parse_duration : String → Result E ℕ) where
  unfoldable pub validate_phase : JobPhase → Option E
  validate_phase p = elim (parse_duration p.duration) [ ok _ ↦ none | err e ↦ some e ]

  -- The zero duration stands for a text that does not parse.
  unfoldable pub get_duration : JobPhase → ℕ
  get_duration p = elim (parse_duration p.duration) [ ok d ↦ d | err _ ↦ 0 ]

  unfoldable pub validate_phases : List JobPhase → Option E
  validate_phases [] = none
  validate_phases (p ∷ ps) =
      let rest = validate_phases ps in elim (validate_phase p) [ some e ↦ some e | none ↦ rest ]

  unfoldable pub validate : {F : Type 0} → Job F → Option E
  unfolding validate_phases
  validate job = validate_phases job.phases
