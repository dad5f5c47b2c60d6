-- ===== src/Sessions/HttpGet/Rate.antt =====
-- When AggregateCounters of sessions/http_get.go computes a rate, and when it panics.
use sigbench.Prelude.{
  ℕ, ◌/◌, ◌≤◌, ◌<◌, ◌≡◌, String, returned, panicked, divide_by_zero, arith, IsNat64, insert, str_eq,
  div64-nat, lt64, true, if◌then◌else◌,
}
use sigbench.Base.{Job, job_duration}
use sigbench.Counters.{Counters, get, get-insert}
use sigbench.Sessions.HttpGet.{second, aggregate_counters}

module _ {F : Type 0} (job : Job F) (now : ℕ) (m : Counters) where
  -- Whenever the job has run for more than 0 but less than a second when the counters are collected,
  -- AggregateCounters panics with a division by zero: its test `duration > 0` is not enough.
  pub aggregate_counters-panics :
      0 < job_duration job now
      → job_duration job now < second
      → aggregate_counters job now m ≡ panicked divide_by_zero
  unfolding aggregate_counters
  aggregate_counters-panics h k =
      let d = job_duration job now in
      let started : lt64 0 d ≡ true = ground arith in
      let none_whole : d / second ≡ 0 = omega arith in
      rw (started, div64-nat d second (omega arith) (omega arith) (omega arith), none_whole)

  -- Whenever the job has run for a second or more and the completed requests are not negative,
  -- AggregateCounters returns, it sets "rps" to the completed requests per whole second of the run, and
  -- leaves every other counter as it was.
  aggregate_counters-rate :
      (j : String)
      → second ≤ job_duration job now
      → IsNat64 (job_duration job now)
      → IsNat64 (get "completed" m)
      → (m' : Counters) × (aggregate_counters job now m ≡ returned m')
        × (get j m' ≡ (
            if str_eq "rps" j
            then get "completed" m / (job_duration job now / second)
            else get j m))
  unfolding aggregate_counters
  aggregate_counters-rate j h small fits =
      let d = job_duration job now in
      let started : lt64 0 d ≡ true = ground arith in
      let secs = d / second in
      (
        insert "rps" (get "completed" m / secs) m,
        rw (
          started,
          div64-nat d second small (omega arith) (omega arith),
          div64-nat (get "completed" m) secs fits (omega arith) (omega arith),
        ),
        get-insert "rps" j (get "completed" m / secs) m,
      )
