-- ===== src/Service/Mux.antt =====
-- The state of SigbenchMux in service/controllers.go, and its handlers of job creation, job status and
-- exit. Every section under the lock is a function of the state.
use Prim.Native.String.{◌++◌ as ◌^^◌}
use sigbench.Prelude.{
  ℕ, String, Bool, true, false, List, [], ◌∷◌, ◌++◌, Option, none, some, Result, ok, err, str_eq,
  not, if◌then◌else◌,
}
use sigbench.Base.{Job, validate}
use sigbench.Text.{split}
use sigbench.Snapshot.Memory.{MemorySnapshotWriter, new_memory_writer}

pub record ServiceConfig : Type 0 where
  pub out_dir : String
  pub influx_server_url : String
  pub influx_auth_token : String
  pub influx_org : String
  pub influx_bucket : String

-- The MasterController that HandleJobCreate makes: its agents, and the value of the "job" tag of its
-- InfluxDB writer, if it has one. Its memory writer is the mux's.
pub record Controller : Type 0 where
  pub agents : List String
  pub influx_job_tag : Option String

pub record SigbenchMux : Type 0 where
  pub config : ServiceConfig
  pub controller : Option Controller
  pub mem_writer : MemorySnapshotWriter
  pub reg_agent_addrs : List (String × ℕ)

unfoldable pub new_mux : ServiceConfig → SigbenchMux
new_mux config = record {
  config = config;
  controller = none;
  mem_writer = new_memory_writer;
  reg_agent_addrs = [];
}

pub data Response : Type 0 where
  status : ℕ → Response
  http_error : ℕ → String → Response

abbrev pub bad_request : String → Response
bad_request msg = http_error 400 msg

-- The fields that HandleJobCreate reads of a parsed form; a missing one is empty.
pub record JobForm : Type 0 where
  pub agents : String
  pub config : String
  pub name : String

abbrev pub still_running : String
still_running = "A job is still running"

-- `c.masterController != nil`, under the lock.
abbrev pub is_busy : SigbenchMux → Bool
is_busy c = elim c.controller [ none ↦ false | some _ ↦ true ]

-- The section under c.lock.Lock() behind the second test.
unfoldable pub install : String → SigbenchMux → SigbenchMux
install job_name c = record c {
  mem_writer = new_memory_writer;
  controller = some (record {
    agents = [];
    influx_job_tag = if str_eq c.config.influx_server_url "" then none else some job_name;
  });
}

-- `c.Agents = append(c.Agents, agentDelegate)`, on the installed controller.
unfoldable pub add_agent : String → SigbenchMux → SigbenchMux
add_agent address c = record c {
  controller = elim c.controller [
    | none ↦ none
    | some m ↦ some (record m { agents = m.agents ++ address ∷ [] })
  ];
}

-- What the goroutine of a job does when the job has run.
unfoldable pub release_controller : SigbenchMux → SigbenchMux
release_controller c = record c { controller = none }

-- `dial` is agent.NewAgentDelegate: `some` is its error.
module _ (dial : String → Option String) where
  unfoldable pub register_agents : List String → SigbenchMux → SigbenchMux × Option String
  unfolding add_agent
  register_agents [] c = (c, none)
  register_agents (address ∷ rest) c =
      let later = register_agents rest (add_agent address c) in
      elim (dial address) [ none ↦ later | some e ↦ (c, some e) ]

-- What follows the sections under the lock: the agents, then the goroutine of the job.
unfoldable pub start_job :
    {F : Type 0}
    → (String → Option String)
    → List String
    → Job F
    → SigbenchMux
    → SigbenchMux × Response × Option (Job F)
unfolding register_agents
start_job dial agents job c =
    let registered = register_agents dial agents c in
    elim registered.1 [
      | some e ↦ (registered.0, bad_request (◌^^◌ "Fail to register agent: " e), none)
      | none ↦ (registered.0, status 201, some job)
    ]

unfoldable pub admit_job :
    {F : Type 0}
    → (String → Option String)
    → Result Response (List String × Job F)
    → SigbenchMux
    → SigbenchMux × Response × Option (Job F)
admit_job dial (err response) c = (c, response, none)
admit_job dial (ok (agents, job)) c =
    if is_busy c
    then (c, bad_request still_running, none)
    else start_job dial agents job (install job.name c)

module _ {F : Type 0} (decode : String → Result String (Job F))
    (parse_duration : String → Result String ℕ) where
  -- Everything that HandleJobCreate does before it takes the lock; `form` is the parsed form.
  unfoldable pub read_job : Result String JobForm → Result Response (List String × Job F)
  read_job (err e) = err (bad_request e)
  read_job (ok form) = elim (split form.agents) [
    | [] ↦ err (bad_request "No agents specified")
    | agent ∷ others ↦ elim (decode form.config) [
      | err e ↦ err (bad_request (◌^^◌ "Fail to decode config: " e))
      | ok job ↦ elim (validate parse_duration job) [
        | some e ↦ err (bad_request (◌^^◌ "Fail to decode config: " e))
        | none ↦
            if str_eq form.name ""
            then err (bad_request "Empty job name")
            else ok (agent ∷ others, record job { name = form.name })
      ]
    ]
  ]

  -- The handler with no other handler in between: the new state, the response, and the job that its
  -- goroutine runs.
  unfoldable pub handle_job_create :
      (String → Option String)
      → Result String JobForm
      → SigbenchMux
      → SigbenchMux × Response × Option (Job F)
  unfolding admit_job
  handle_job_create dial form c = admit_job dial (read_job form) c

-- HandleJobStatus behind the upgrade. At every tick it reads, under the lock, whether a job runs and
-- the memory writer; `payload` and `sent` are the results of Dump and WriteMessage. The messages sent.
pub record Tick (P : Type 0) : Type 0 where
  pub idle : Bool
  pub payload : Option P
  pub sent : Bool

unfoldable pub status_loop : {P : Type 0} → List (Tick P) → List P
status_loop [] = []
status_loop (t ∷ ts) =
    let later = status_loop ts in
    elim t.payload [
      | none ↦ []
      | some p ↦ if not t.sent then [] else if t.idle then p ∷ [] else p ∷ later
    ]

-- The response, and whether the process will exit.
unfoldable pub handle_master_exit : String → Response × Bool
handle_master_exit method =
    if not (str_eq method "POST") then (bad_request "Expect POST", false) else (status 200, true)
