-- ===== src/Examples/Systems.antt =====
-- Inputs for the theorems that join parts of the program: master/master_controller.go with
-- agent/agent_controller.go, snapshot/influxdb_writer.go and service/controllers.go with its routes.
use sigbench.Prelude.{
  List, Option, Result, String, [], arith, err, has_key, lookup, none, ok, refl, run_steps, some, ℕ,
  ◌∷◌, ◌≡◌,
}
use sigbench.Base.{Job}
use sigbench.Counters.{Counters}
use sigbench.Snapshot.Memory.{write_memory}
use sigbench.Snapshot.Aggregated.{write_aggregated}
use sigbench.Snapshot.Influx.{
  Point, InfluxWriter, in_memory, to_influx, job_api, job_writers, reported, job_writers-written,
}
use sigbench.Service.Mux.{ServiceConfig, new_mux}
use sigbench.Service.Expiry.{promised}
use sigbench.Service.Serve.{
  Handler, index, routes, ServiceEvent, requests, expires, job_ends, serve, registry_events,
  new_service_mux, serve-promised,
}
use sigbench.Sessions.Registry.{Session, registry, web_pub_sub}
use sigbench.Master.Total.{AgentState}
use mathlib.Core.Quot
use sigbench.Master.Watch
use sigbench.Master.Watch.{Watched, Snapshot, watch, snap}

abbrev job : Job ℕ
job = record {
  name = "load";
  start_time = 0;
  phases = [];
  session_names = "webpubsub:echo" ∷ [];
  session_percentages = 100 ∷ [];
  session_params = [];
}

-- One agent with three echoes, one with four, and with a system counter.
abbrev sessions_with : ℕ → List (String × Session)
sessions_with n = ("webpubsub:echo", web_pub_sub (λ f. n)) ∷ []

abbrev agents : List (AgentState (registry ℕ (λ p. none)))
agents =
    record { sessions = sessions_with 3; system = [] }
    ∷ record { sessions = sessions_with 4; system = ("agent:cpu:total", 9) ∷ [] }
    ∷ []

-- A collection of the goroutine at second 9 is written behind that of Run at second 10.
abbrev stale : Snapshot
stale = record { now = 9; counters = ("done", 1) ∷ [] }

abbrev newest : Snapshot
newest = record { now = 10; counters = ("done", 2) ∷ [] }

abbrev in_flight : Watched
in_flight = record {
  runner = Watch.Runner.finished;
  watcher = Watch.Watcher.collected stale;
  writer = snap newest;
}

abbrev overtaken : Watched
overtaken = record in_flight { watcher = Watch.Watcher.ended; writer = snap stale }

-- The state is one that Run and the goroutine reach.
reaches_in_flight :
    watch Watch.launch (
      Watch.agents_end
      ∷ Watch.ticks stale
      ∷ Watch.runner_collects newest
      ∷ Watch.runner_writes
      ∷ [])
    ≡ some in_flight
unfolding watch run_steps write_memory Watch.step Watch.launch
reaches_in_flight = refl

abbrev config : ServiceConfig
config = record {
  out_dir = "out";
  influx_server_url = "http://influx";
  influx_auth_token = "";
  influx_org = "";
  influx_bucket = "";
}

abbrev refuses : Point → Option String
refuses p = some "unreachable"

job_writers-written_example :
    (w : InfluxWriter) × (p : Point) × (write_aggregated
        (job_api refuses)
        7
        (("done", 1) ∷ [])
        (job_writers config "load")
      ≡ (
        in_memory (record { counters = ("done", 1) ∷ []; updated_at = 7 }) ∷ to_influx w ∷ [],
        reported (refuses p),
      ))
    × (p.time ≡ 7)
    × (p.tags ≡ ("job", "load") ∷ [])
    × (lookup "done" p.fields ≡ lookup "done" (("done", 1) ∷ []))
unfolding has_key
job_writers-written_example =
    job_writers-written refuses config "load" 7 (("done", 1) ∷ []) "done" refl (refl, tt)

-- The route of exactly that path, or else the index.
abbrev exact : List (String × Handler) → String → Handler
exact rs path = elim (lookup path rs) [ none ↦ index | some h ↦ h ]

abbrev request : String → String → ℕ → ServiceEvent
request path address now = requests (record {
  path = path;
  method = "POST";
  job_form = err "no form";
  agent_form = ok address;
  upgraded = ok tt;
  now = now;
})

abbrev decode : String → Result String (Job ℕ)
decode text = ok job

abbrev no_duration : String → Result String ℕ
no_duration text = err "bad duration"

-- An agent registers, a job is refused, and the agent falls silent.
abbrev day : List ServiceEvent
day =
    request "/agent/register" "a:7000" 1000000000
    ∷ request "/job/create" "a:7000" 2000000000
    ∷ request "/agent/register" "b:7000" 10000000000
    ∷ job_ends
    ∷ expires 20000000000
    ∷ []

serve-promised_example :
    lookup "b:7000"
      (serve exact decode no_duration (λ a. none) (λ l. l) day (new_mux config)).reg_agent_addrs
    ≡ promised (registry_events exact day) (λ x. none) "b:7000"
unfolding new_service_mux routes lookup
serve-promised_example =
    serve-promised exact decode no_duration (λ a. none) (λ l. l) config day (new_mux config) refl
      (
        (omega arith),
        (omega arith),
        ((omega arith), (omega arith), ((omega arith), (omega arith), tt)),
      )
      "b:7000"

-- The same replies, with the agents and one map in another order.
abbrev as_came : List (Counters × Option String)
as_came = (("a", 1) ∷ ("b", 2) ∷ [], none) ∷ (("a", 3) ∷ [], none) ∷ []

abbrev otherwise : List (Counters × Option String)
otherwise = (("a", 3) ∷ [], none) ∷ (("b", 2) ∷ ("a", 1) ∷ [], none) ∷ []
