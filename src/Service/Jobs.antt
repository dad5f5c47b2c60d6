-- ===== src/Service/Jobs.antt =====
-- What HandleJobCreate of service/controllers.go does on its branches.
use mathlib.Core.List.{append_assoc, append-nil}
use sigbench.Prelude.{
  ℕ, ◌≡◌, ◌≢◌, ◌∙◌, refl, String, true, false, List, [], ◌∷◌, ◌++◌, Option, none, some, Result, ok,
  err, str_eq, str_eq_iff, arith, if◌then◌else◌, Bool-cases, ◌⊎◌, inl, inr,
}
use sigbench.Base.{Job, validate}
use sigbench.Base.Validation.{Validated, validate-Validated}
use sigbench.Text.{split}
use sigbench.Snapshot.Memory.{new_memory_writer}
use sigbench.Service.Mux.{
  Controller, SigbenchMux, Response, status, JobForm, is_busy, install, add_agent, register_agents,
  read_job, start_job, admit_job, handle_job_create,
}

module _ (dial : String → Option String) where
  -- With no error, every address has been dialled and appended, in the list's order.
  register_agents-all :
      (addresses : List String) (c : SigbenchMux) (m : Controller)
      → c.controller ≡ some m
      → (register_agents dial addresses c).1 ≡ none
      → (register_agents dial addresses c).0
        ≡ record c { controller = some (record m { agents = m.agents ++ addresses }) }
  unfolding register_agents
  register_agents-all [] c m e h = ground (arith, append-nil m.agents)
  register_agents-all (a ∷ rest) c m e h =
      let more : Controller = record m { agents = m.agents ++ a ∷ [] } in
      let step : register_agents dial (a ∷ rest) c ≡ register_agents dial rest (add_agent a c) =
        ground arith in
      let added : add_agent a c ≡ record c { controller = some more } =
        unfold add_agent in ground arith in
      rw (step, added)
        (register_agents-all rest (record c { controller = some more }) more refl
            (rw (step, added) at h)
          ∙ rw (append_assoc m.agents (a ∷ []) rest))

  -- The controller stays installed whatever happens, and nothing else changes.
  register_agents-busy :
      (addresses : List String) (c : SigbenchMux)
      → is_busy (register_agents dial addresses c).0 ≡ is_busy c
  unfolding register_agents add_agent
  register_agents-busy [] c = refl
  register_agents-busy (a ∷ rest) c = ground (arith, register_agents-busy rest (add_agent a c))

start_job-created :
    {F : Type 0} (dial : String → Option String) (agents : List String) (job : Job F)
    (c : SigbenchMux) (m : Controller)
    → c.controller ≡ some m
    → (start_job dial agents job c).1 ≡ status 201
    → ((start_job dial agents job c).0
        ≡ record c { controller = some (record m { agents = m.agents ++ agents }) })
      × ((start_job dial agents job c).2 ≡ some job)
unfolding start_job
start_job-created dial agents job c m e h =
    (ground (arith, register_agents-all dial agents c m e), ground arith)

start_job-refused :
    {F : Type 0} (dial : String → Option String) (agents : List String) (job : Job F)
    (c : SigbenchMux)
    → (start_job dial agents job c).1 ≢ status 201
    → (is_busy (start_job dial agents job c).0 ≡ is_busy c)
      × ((start_job dial agents job c).2 ≡ none)
unfolding start_job
start_job-refused dial agents job c h =
    (ground (arith, register_agents-busy dial agents c), ground arith)

-- The controller that a created job runs on.
abbrev pub controller_of : {F : Type 0} → SigbenchMux → List String → Job F → Controller
controller_of c agents job = record {
  agents = agents;
  influx_job_tag = if str_eq c.config.influx_server_url "" then none else some job.name;
}

admit_job-created :
    {F : Type 0} (dial : String → Option String) (agents : List String) (job : Job F)
    (c : SigbenchMux)
    → (admit_job dial (ok (agents, job)) c).1 ≡ status 201
    → (is_busy c ≡ false)
      × ((admit_job dial (ok (agents, job)) c).0 ≡ record c {
        controller = some (controller_of c agents job);
        mem_writer = new_memory_writer;
      })
      × ((admit_job dial (ok (agents, job)) c).2 ≡ some job)
unfolding admit_job install
admit_job-created dial agents job c h = elim (Bool-cases (is_busy c)) [
  | inl busy ↦ absurd (ground arith)
  | inr idle ↦
      let (state, runs) =
        start_job-created dial agents job (install job.name c) (controller_of c [] job) refl
          (ground arith) in
      (idle, rw idle state, rw idle runs)
]

admit_job-refused :
    {F : Type 0} (dial : String → Option String) (agents : List String) (job : Job F)
    (c : SigbenchMux)
    → (admit_job dial (ok (agents, job)) c).1 ≢ status 201
    → ((admit_job dial (ok (agents, job)) c).2 ≡ none)
      × (((admit_job dial (ok (agents, job)) c).0 ≡ c)
          ⊎ ((is_busy c ≡ false) × (is_busy (admit_job dial (ok (agents, job)) c).0 ≡ true)))
unfolding admit_job install
admit_job-refused dial agents job c h = elim (Bool-cases (is_busy c)) [
  | inl busy ↦ rw busy (refl, inl refl)
  | inr idle ↦
      let (kept, stopped) =
        start_job-refused dial agents job (install job.name c) (λ e. h (rw idle e)) in
      rw idle (stopped, inr (refl, kept))
]

module _ {F : Type 0} (decode : String → Result String (Job F))
    (parse_duration : String → Result String ℕ) where
  -- A request that gets as far as the lock has a valid job, a name that is not empty, and as agents the
  -- parts of its text.
  read_job-ok :
      (form : JobForm) (agents : List String) (job : Job F)
      → read_job decode parse_duration (ok form) ≡ ok (agents, job)
      → (agents ≡ split form.agents)
        × (job.name ≡ form.name)
        × (job.name ≢ "")
        × Validated parse_duration job.phases none
  unfolding read_job validate
  read_job-ok form agents job h =
      let valid : validate parse_duration job ≡ none = ground arith in
      (
        ground arith,
        ground arith,
        ground (arith, str_eq_iff form.name ""),
        rw valid at (validate-Validated parse_duration job),
      )

  read_job-err :
      (form : Result String JobForm) (response : Response)
      → read_job decode parse_duration form ≡ err response
      → response ≢ status 201
  unfolding read_job
  read_job-err (ok form) response e h = ground arith
  read_job-err (err x) response e h = ground arith

  module _ (dial : String → Option String) (form : JobForm) (c : SigbenchMux) where
    abbrev result : SigbenchMux × Response × Option (Job F)
    result = handle_job_create decode parse_duration dial (ok form) c

    -- Whenever the response to a parsed form is 201, no job was running; the job's phases have valid
    -- durations, and its name is that of the form and not empty; the controller now installed has
    -- dialled exactly the addresses of the form's text, in their order, and tags InfluxDB points with
    -- the job's name if a server is configured; the memory writer is a new one; and this job is the
    -- one that runs.
    pub handle_job_create-created :
        result.1 ≡ status 201
        → (job : Job F) × (is_busy c ≡ false)
          × (job.name ≡ form.name)
          × (job.name ≢ "")
          × Validated parse_duration job.phases none
          × (result.0 ≡ record c {
            controller = some (controller_of c (split form.agents) job);
            mem_writer = new_memory_writer;
          })
          × (result.2 ≡ some job)
    unfolding handle_job_create
    handle_job_create-created h =
        let (agents, job, fine) = created_ok (read_job decode parse_duration (ok form)) refl h in
        let (parts, name, named, valid) = read_job-ok form agents job fine in
        let started : (admit_job dial (ok (agents, job)) c).1 ≡ status 201 = rw fine at h in
        let (idle, state, runs) = admit_job-created dial agents job c started in
        (job, idle, name, named, valid, rw (fine, ← parts) state, rw fine runs)
      where
        created_ok :
            (r : Result Response (List String × Job F))
            → read_job decode parse_duration (ok form) ≡ r
            → (admit_job dial (read_job decode parse_duration (ok form)) c).1 ≡ status 201
            → (agents : List String) × (job : Job F) × (read_job decode parse_duration (ok form)
                ≡ ok (agents, job))
        created_ok (ok (agents, job)) e h = (agents, job, e)
        created_ok (err response) e h = absurd (read_job-err (ok form) response e (rw e at h))

    -- Whenever the response to a parsed form is another one, no job is started; and the state is as it
    -- was, or else no job was running and now a controller is installed.
    pub handle_job_create-refused :
        result.1 ≢ status 201
        → (result.2 ≡ none) × ((result.0 ≡ c) ⊎ ((is_busy c ≡ false) × (is_busy result.0 ≡ true)))
    unfolding handle_job_create
    handle_job_create-refused h = refused (read_job decode parse_duration (ok form)) h
      where
        refused :
            (r : Result Response (List String × Job F))
            → (admit_job dial r c).1 ≢ status 201
            → ((admit_job dial r c).2 ≡ none)
              × (((admit_job dial r c).0 ≡ c)
                  ⊎ ((is_busy c ≡ false) × (is_busy (admit_job dial r c).0 ≡ true)))
        refused (ok (agents, job)) k = admit_job-refused dial agents job c k
        refused (err response) k = (refl, inl refl)
