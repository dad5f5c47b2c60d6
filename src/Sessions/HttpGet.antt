-- ===== src/Sessions/HttpGet.antt =====
-- HttpGetSession of sessions/http_get.go: the counters, Execute and AggregateCounters. The HTTP client
-- is a parameter: how often it dialled, and whether Get failed or how long the response took.
pub mod Client
pub mod Balance
pub mod Rate
use sigbench.Prelude.{
  ℕ, ◌≡◌, ◌≢◌, refl, String, Bool, true, false, List, [], ◌∷◌, ◌++◌, Outcome, returned, ◌>>=◌,
  minus_one, lt64, if◌then◌else◌, insert, div64, Option, none, some, ltb,
}
use sigbench.Base.{Job, job_duration}
use sigbench.Counters.{Counters, get}
use sigbench.Sessions.Script.{Adds, Ending, value, Script}

-- The counter fields of HttpGetSession.
pub data Field : Type 0 where
  initiated completed error dial duration_lt_1000 duration_lt_10000 duration_gte_10000 : Field

unfoldable pub Field-discrete : Discrete Field
Field-discrete = hlevel

-- What `s.client.Get` did: the calls of DialContext, and the int64 nanoseconds until the body was read,
-- or none if it failed.
pub record Fetch : Type 0 where
  pub dials : ℕ
  pub duration : Option ℕ

-- time.Second
abbrev pub second : ℕ
second = 1000000000

-- The field that counts responses of a duration.
unfoldable pub duration_bucket : ℕ → Field
duration_bucket d =
    if lt64 d second
    then duration_lt_1000
    else if lt64 d (10000000000)
    then duration_lt_10000
    else duration_gte_10000

abbrev pub dial_adds : ℕ → List (Field × ℕ)
dial_adds ℕ.zero = []
dial_adds (ℕ.suc n) = (dial, 1) ∷ dial_adds n

unfoldable pub execute_rest : Option ℕ → List (Field × ℕ)
unfolding duration_bucket
execute_rest none = (initiated, minus_one) ∷ (error, 1) ∷ []
execute_rest (some d) = (duration_bucket d, 1) ∷ (initiated, minus_one) ∷ (completed, 1) ∷ []

-- Execute returns nil also when Get fails.
unfoldable pub execute : Fetch → Script Field (Unit {0})
unfolding execute_rest
execute fetch = ((initiated, 1) ∷ (dial_adds fetch.dials ++ execute_rest fetch.duration), value tt)

-- Setup sets every counter to 0.
unfoldable pub setup : Field → ℕ
setup f = 0

unfoldable pub counters : (Field → ℕ) → Counters
counters s =
    ("initiated", s initiated)
    ∷ ("completed", s completed)
    ∷ ("error", s error)
    ∷ ("dial", s dial)
    ∷ ("duration:<1000", s duration_lt_1000)
    ∷ ("duration:<10000", s duration_lt_10000)
    ∷ ("duration:>=10000", s duration_gte_10000)
    ∷ []

-- `int64(duration / time.Second)` divides, and so does the rate: by 0 that is a panic.
unfoldable pub aggregate_counters : {F : Type 0} → Job F → ℕ → Counters → Outcome Counters
aggregate_counters job now m =
    let duration = job_duration job now in
    if lt64 0 duration
    then (do
      secs ← div64 duration second
      rps ← div64 (get "completed" m) secs
      returned (insert "rps" rps m))
    else returned m
