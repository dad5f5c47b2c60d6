-- ===== src/Examples/Services.antt =====
-- Inputs for the theorems about service/controllers.go and master/master_controller.go.
use sigbench.Prelude.{
  All, ℕ, ◌+◌, ◌*◌, ◌/◌, ◌≡◌, ◌≢◌, refl, String, true, false, List, [], ◌∷◌, Option, none, some,
  Result, ok, err, returned, arith, sum_of, lookup, str_eq, if◌then◌else◌, run_steps,
}
use sigbench.Base.{Job, JobPhase, validate, validate_phase}
use sigbench.Base.Validation.{Validated}
use sigbench.Text.{split}
use sigbench.Counters.{Counters}
use sigbench.Snapshot.Memory.{new_memory_writer}
use sigbench.Service.Mux.{
  ServiceConfig, SigbenchMux, Response, JobForm, new_mux, install, add_agent, is_busy,
  handle_job_create, admit_job, start_job, register_agents, read_job,
}
use sigbench.Service.Exclusive.{
  System, Event, new_system, step, run, busy_count, check, claim, register, register_fails, start,
  run-exclusive,
}
use sigbench.Service.Stuck.{run-blocked}
use sigbench.Service.Jobs.{controller_of, handle_job_create-created}
use sigbench.Sessions.Registry.{Session, registry, session_aggregator, web_pub_sub}
use sigbench.Snapshot.Aggregated.{WriterApi}
use sigbench.Agent.Users.{Floats, total_session_users, get_session_users}
use sigbench.Master.Run
use sigbench.Master.Run.{
  AgentRunArgs, Collection, setup_all_agents, run_args, watch_counters, snapshot,
}
use sigbench.Master.Cover.{IsCall, run-covers}
use sigbench.Master.Collect.{add_replies, aggregate_sessions, aggregate_session, collect_counters}

abbrev config : ServiceConfig
config = record {
  out_dir = "out";
  influx_server_url = "http://influx";
  influx_auth_token = "";
  influx_org = "";
  influx_bucket = "";
}

-- Two handlers pass the test under RLock; one of them gets the controller.
abbrev two_requests : List Event
two_requests = check ∷ check ∷ claim "one" ∷ claim "two" ∷ register "a:7000" ∷ start ∷ []

abbrev one_running : System
one_running = record {
  mux = add_agent "a:7000" (install "one" (new_mux config));
  passed = 0;
  registering = 0;
  running = 1;
  failed = 0;
}

run-exclusive_example : 0 + 1 + 0 ≡ busy_count one_running.mux
unfolding step new_system run_steps new_mux install
run-exclusive_example = run-exclusive config two_requests one_running refl

abbrev failed_request : List Event
failed_request = check ∷ claim "one" ∷ register_fails ∷ []

abbrev one_failed : System
one_failed = record {
  mux = install "one" (new_mux config);
  passed = 0;
  registering = 0;
  running = 0;
  failed = 1;
}

run-blocked_example :
    (is_busy one_failed.mux ≡ true) × (one_failed.registering ≡ 0) × (one_failed.running ≡ 0)
unfolding step new_system run_steps new_mux install
run-blocked_example =
    run-blocked config failed_request (check ∷ []) one_failed one_failed refl (omega arith) refl

abbrev decode : String → Result String (Job ℕ)
decode text =
    if str_eq text ""
    then err "empty"
    else ok (record {
      name = "";
      start_time = 0;
      phases = record { name = "First"; users_per_second = 10; duration = "10s" } ∷ [];
      session_names = "http:get" ∷ [];
      session_percentages = 100 ∷ [];
      session_params = [];
    })

abbrev ten_seconds : String → Result String ℕ
ten_seconds text = if str_eq text "10s" then ok 10000000000 else err "bad duration"

abbrev form : JobForm
form = record { agents = "a:7000,b:7000"; config = "{}"; name = "load" }

abbrev dial : String → Option String
dial address = if str_eq address "b:7000" then some "refused" else none

abbrev created : SigbenchMux × Response × Option (Job ℕ)
created = handle_job_create decode ten_seconds (λ a. none) (ok form) (new_mux config)

handle_job_create-created_example :
    (job : Job ℕ) × (is_busy (new_mux config) ≡ false)
    × (job.name ≡ form.name)
    × (job.name ≢ "")
    × Validated ten_seconds job.phases none
    × (created.0 ≡ record (new_mux config) {
      controller = some (controller_of (new_mux config) (split form.agents) job);
      mem_writer = new_memory_writer;
    })
    × (created.2 ≡ some job)
unfolding handle_job_create admit_job start_job register_agents read_job split validate install
    new_mux validate_phase
handle_job_create-created_example =
    handle_job_create-created decode ten_seconds (λ a. none) form (new_mux config) refl

abbrev refused : SigbenchMux × Response × Option (Job ℕ)
refused = handle_job_create decode ten_seconds dial (ok form) (new_mux config)

abbrev job : Job ℕ
job = record {
  name = "load";
  start_time = 0;
  phases = [];
  session_names = "webpubsub:echo" ∷ [];
  session_percentages = 100 ∷ [];
  session_params = [];
}

abbrev sessions : List (String × Session)
sessions = ("webpubsub:echo", web_pub_sub (λ f. 0)) ∷ []

abbrev replies : List (Counters × Option String)
replies = (("done", 3) ∷ [], none) ∷ (("done", 4) ∷ [], some "connection lost") ∷ []

abbrev at_end : Collection String
at_end = record { now = 2000; replies = replies }

abbrev agents : List String
agents = "a:7000" ∷ "b:7000" ∷ []

-- A writer that counts its snapshots.
abbrev counting : WriterApi
counting = record { Writer = ℕ; write_counters = λ now counters n. (n + 1, none) }

-- Hundredths in place of float64.
abbrev hundredths : Floats
hundredths = record { F = ℕ; from_int64 = λ n. n; to_int64 = λ n. n; mul = λ a b. a * b / 100 }

abbrev ten_users : JobPhase
ten_users = record { name = "First"; users_per_second = 10; duration = "10s" }

abbrev started : Job ℕ
started = record job { start_time = 5 }

run-covers_example :
    (users : AgentRunArgs ℕ → ℕ) × All (IsCall started 2) (run_args started 2 agents 0)
    × ((a : AgentRunArgs ℕ)
        → get_session_users 2 hundredths ten_users 100 2 a.agent_idx ≡ returned (users a))
    × (sum_of users (run_args started 2 agents 0) ≡ total_session_users hundredths ten_users 100)
unfolding Run.run setup_all_agents watch_counters snapshot collect_counters aggregate_sessions
    aggregate_session add_replies session_aggregator lookup total_session_users run_args
run-covers_example =
    run-covers hundredths (registry ℕ (λ p. none)) counting sessions agents job 5 (none ∷ none ∷ [])
      (at_end ∷ []) at_end 0 2 (run_args started 2 agents 0) ten_users 100 refl (omega arith)
      (omega arith)

-- No request and no job.
abbrev idle_system : System
idle_system = record { mux = new_mux config; passed = 0; registering = 0; running = 0; failed = 0 }
