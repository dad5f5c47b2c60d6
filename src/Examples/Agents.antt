-- ===== src/Examples/Agents.antt =====
-- Inputs for the theorems about agent/agent_controller.go and base/job.go.
use sigbench.Prelude.{
  ℕ, ◌+◌, ◌*◌, ◌/◌, ◌≤◌, ◌≡◌, refl, String, Bool, true, false, List, [], ◌∷◌, some, Result, ok, err,
  returned, running, arith, sum_below, sum_of, str_eq, if◌then◌else◌, run_steps,
}
use sigbench.Base.{Job, JobPhase}
use sigbench.Sessions.Registry.{Session, http_get, web_pub_sub, signalr_echo}
use sigbench.Agent.Users.{Floats, total_session_users, get_session_users}
use sigbench.Agent.Shares.{
  reference_share, get_session_users-partition, get_session_users-reference,
  get_session_users-diverges,
}
use sigbench.Agent.Phase.{
  Crew, Event, launch, expire, id_made, id_failed, session_done, release, signal, leave, new_crew,
  step, run,
}
use sigbench.Agent.Crew.{is_launch, run-bounded, run-over, lost_user_blocks}
use sigbench.Agent.Drain.{run-Ends}

-- A SessionMap of three sessions.
abbrev session_map : List (String × Session)
session_map =
    ("signalrcore:echo", signalr_echo (λ f. 0))
    ∷ ("http:get", http_get (λ f. 0))
    ∷ ("webpubsub:echo", web_pub_sub (λ f. 0))
    ∷ []

-- Hundredths in place of float64.
abbrev hundredths : Floats
hundredths = record {
  F = ℕ;
  from_int64 = λ n. n * 100;
  to_int64 = λ x. x / 100;
  mul = λ x y. x * y / 100;
}

-- The same, but every product is -1.
abbrev minus_ones : Floats
minus_ones = record {
  F = ℕ;
  from_int64 = λ n. n;
  to_int64 = λ x. x;
  mul = λ x y. 18446744073709551615;
}

abbrev phase : JobPhase
phase = record { name = "broadcast"; users_per_second = 29; duration = "10s" }

get_session_users-partition_example :
    (share : ℕ → ℕ) × ((i : ℕ) → get_session_users 5 hundredths phase 100 5 i ≡ returned (share i))
    × (sum_below 5 share ≡ total_session_users hundredths phase 100)
unfolding total_session_users
get_session_users-partition_example =
    get_session_users-partition hundredths phase 100 5 (omega arith) 5 (omega arith) (omega arith)

get_session_users-reference_example :
    get_session_users 5 hundredths phase 100 5 4
    ≡ returned (reference_share (total_session_users hundredths phase 100) 5 4)
unfolding total_session_users
get_session_users-reference_example =
    get_session_users-reference hundredths phase 100 5 (omega arith) 5 4 (omega arith) (omega arith)
      (omega arith)

get_session_users-diverges_example : get_session_users 1000 minus_ones phase 100 2 0 ≡ running
unfolding total_session_users
get_session_users-diverges_example =
    get_session_users-diverges minus_ones phase 100 1000 2 0 1 (omega arith) (omega arith)
      (omega arith) refl

abbrev one_user : List Event
one_user = launch ∷ id_made ∷ session_done ∷ expire ∷ release ∷ signal ∷ leave ∷ []

abbrev after_one_user : Crew
after_one_user = record {
  capacity = 1;
  buffered = 0;
  waiting = 0;
  starting = 0;
  executing = 0;
  sleeping = 0;
  releasing = 0;
  signalling = 0;
  lost = 0;
  finished = 1;
  expired = true;
  over = true;
}

one_user_runs : run (new_crew 1) one_user ≡ some after_one_user
unfolding run_steps step new_crew
one_user_runs = refl

run-bounded_example : (0 + 0 + 0 + 0 + 0 ≤ 1) × (0 ≤ 0)
run-bounded_example = run-bounded 1 one_user after_one_user one_user_runs

run-over_example :
    ◌≡◌ {A = Bool} true true × (1 ≡ sum_of is_launch one_user) × ◌≡◌ {A = ℕ} 0 0 × ◌≡◌ {A = ℕ} 0 0
run-over_example = run-over 1 one_user after_one_user one_user_runs refl

abbrev crew_of_two : Crew
crew_of_two = record after_one_user {
  buffered = 1;
  waiting = 1;
  executing = 1;
  finished = 0;
  over = false;
}

running_user : run (new_crew 1) (launch ∷ id_made ∷ expire ∷ []) ≡ some crew_of_two
unfolding run_steps step new_crew
running_user = refl

run-Ends_example : (fs : List Event) × (d : Crew) × (run crew_of_two fs ≡ some d) × (d.over ≡ true)
run-Ends_example = run-Ends 1 (launch ∷ id_made ∷ expire ∷ []) crew_of_two running_user refl refl

abbrev lost_crew : Crew
lost_crew = record crew_of_two { executing = 0; lost = 1 }

lost_user : run (new_crew 1) (launch ∷ id_failed ∷ expire ∷ []) ≡ some lost_crew
unfolding run_steps step new_crew
lost_user = refl

nothing_more : run lost_crew [] ≡ some lost_crew
unfolding run_steps
nothing_more = refl

lost_user_blocks_example : ◌≡◌ {A = Bool} false false
lost_user_blocks_example =
    lost_user_blocks 1 (launch ∷ id_failed ∷ expire ∷ []) [] lost_crew lost_crew lost_user
      (omega arith) nothing_more

abbrev job : Job ℕ
job = record {
  name = "";
  start_time = 0;
  phases = phase ∷ [];
  session_names = "http:get" ∷ "signalrcore:echo" ∷ [];
  session_percentages = 50 ∷ 50 ∷ [];
  session_params = [];
}

abbrev ten_seconds : String → Result String ℕ
ten_seconds s = if str_eq s "10s" then ok 10000000000 else err "invalid duration"
