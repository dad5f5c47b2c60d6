-- ===== src/Service/Serve.antt =====
-- The service of service/controllers.go as a whole: NewServiceMux with its routes, ServeHTTP, the
-- handlers behind the routes, and what cmd/main.go (startAsService) and the jobs' goroutines do beside
-- them. http.ServeMux, the form parsers, the dialler and sort.Strings are parameters.
use sigbench.Prelude.{
  ℕ, ◌≡◌, ◌∙◌, refl, ap, sym, String, Bool, false, List, [], ◌∷◌, ◌++◌, Option, none, some, Result,
  ok, err, lookup, Outcome, returned, panicked, fatal, inl, inr, Bool-cases, Option-cases, str_eq,
  insert,
}
use sigbench.Base.{Job}
use sigbench.Service.Mux.{
  ServiceConfig, SigbenchMux, new_mux, Response, http_error, JobForm, handle_job_create,
  handle_master_exit, release_controller, register_agents, add_agent, start_job, admit_job, install,
  is_busy, read_job,
}
use sigbench.Service.Registry.{
  handle_agent_register, check_expired_agents, remove_expired, handle_index,
}
use sigbench.Service.Heartbeat.{RegistryEvent, registers, checks, run_registry}
use sigbench.Service.Expiry.{promised, IsOrdered, run_registry-promised}
use Prim.Native.String.{◌++◌ as ◌^^◌}

pub data Handler : Type 0 where
  job_create job_status agent_register master_exit index : Handler

-- `mux.HandleFunc(…)`, in the source's order.
unfoldable pub routes : List (String × Handler)
routes =
    ("/job/create", job_create)
    ∷ ("/job/status", job_status)
    ∷ ("/agent/register", agent_register)
    ∷ ("/master/exit", master_exit)
    ∷ ("/", index)
    ∷ []

-- `make_dir` is the error of os.MkdirAll.
unfoldable pub new_service_mux : Option String → ServiceConfig → Outcome SigbenchMux
new_service_mux (some e) config = panicked fatal
new_service_mux none config = returned (new_mux config)

-- What the handlers read of a request, with the time at which its handler holds the lock. The two forms
-- are those of HandleJobCreate and HandleAgentRegister; `upgraded` is the result of Upgrade.
pub record HttpRequest : Type 0 where
  pub path : String
  pub method : String
  pub job_form : Result String JobForm
  pub agent_form : Result String String
  pub upgraded : Result String (Unit {0})
  pub now : ℕ

-- What a handler answers with: a status; the data of the page; or the messages of HandleJobStatus.
pub data Answer : Type 0 where
  response : Response → Answer
  page : ℕ → String → Answer
  stream : Answer

unfoldable pub handle_job_status : Result String (Unit {0}) → Answer
handle_job_status (err e) = response (http_error 500 (◌^^◌ "Fail to upgrade websocket: " e))
handle_job_status (ok _) = stream

-- A request; a tick of startAsService; or the end of a job's goroutine.
pub data ServiceEvent : Type 0 where
  requests : HttpRequest → ServiceEvent
  expires : ℕ → ServiceEvent
  job_ends : ServiceEvent

-- What a request is to the registry of agents.
abbrev pub registration : Handler → Result String String → ℕ → List RegistryEvent
registration agent_register (ok address) now = registers address now ∷ []
registration _ _ now = []

module _ (pick : List (String × Handler) → String → Handler) where
  abbrev pub registry_events : List ServiceEvent → List RegistryEvent
  registry_events [] = []
  registry_events (requests req ∷ es) =
      registration (pick routes req.path) req.agent_form req.now ++ registry_events es
  registry_events (expires now ∷ es) = checks now ∷ registry_events es
  registry_events (job_ends ∷ es) = registry_events es

module _ {F : Type 0} (pick : List (String × Handler) → String → Handler)
    (decode : String → Result String (Job F)) (parse_duration : String → Result String ℕ)
    (dial : String → Option String) (sort : List String → List String) where
  -- The new state, the answer, the job that a new goroutine runs, and whether the process will exit.
  unfoldable pub handle :
      Handler → HttpRequest → SigbenchMux → SigbenchMux × Answer × Option (Job F) × Bool
  unfolding handle_job_status
  handle job_create req c =
      let (c', r, job) = handle_job_create decode parse_duration dial req.job_form c in
      (c', response r, job, false)
  handle job_status req c = (c, handle_job_status req.upgraded, none, false)
  handle agent_register req c =
      let (c', r) = handle_agent_register req.agent_form req.now c in (c', response r, none, false)
  handle master_exit req c =
      let (r, exits) = handle_master_exit req.method in (c, response r, none, exits)
  handle index req c =
      let (count, agents) = handle_index sort c in (c, page count agents, none, false)

  -- `c.mux.ServeHTTP(w, req)`
  unfoldable pub serve_http :
      HttpRequest → SigbenchMux → SigbenchMux × Answer × Option (Job F) × Bool
  unfolding handle
  serve_http req c = handle (pick routes req.path) req c

  -- Requests whose handlers run one after the other, with the ticks and the ends of jobs in between.
  unfoldable pub serve : List ServiceEvent → SigbenchMux → SigbenchMux
  unfolding serve_http
  serve [] c = c
  serve (requests req ∷ es) c = serve es (serve_http req c).0
  serve (expires now ∷ es) c = serve es (check_expired_agents now c)
  serve (job_ends ∷ es) c = serve es (release_controller c)

  register_agents-registry :
      (addresses : List String) (c : SigbenchMux)
      → (register_agents dial addresses c).0.reg_agent_addrs ≡ c.reg_agent_addrs
  unfolding register_agents add_agent
  register_agents-registry [] c = refl
  register_agents-registry (a ∷ rest) c = elim (Option-cases (dial a)) [
    | inl e ↦ rw (e, register_agents) (register_agents-registry rest (add_agent a c))
    | inr (m, e) ↦ rw (e, register_agents) refl
  ]

  start_job-registry :
      (addresses : List String) (job : Job F) (c : SigbenchMux)
      → (start_job dial addresses job c).0.reg_agent_addrs ≡ c.reg_agent_addrs
  unfolding start_job
  start_job-registry addresses job c = elim (Option-cases (register_agents dial addresses c).1) [
    | inl e ↦ rw (e, start_job) (register_agents-registry addresses c)
    | inr (m, e) ↦ rw (e, start_job) (register_agents-registry addresses c)
  ]

  admit_job-registry :
      (form : Result Response (List String × Job F)) (c : SigbenchMux)
      → (admit_job dial form c).0.reg_agent_addrs ≡ c.reg_agent_addrs
  unfolding admit_job install
  admit_job-registry (err r) c = refl
  admit_job-registry (ok (addresses, job)) c = elim (Bool-cases (is_busy c)) [
    | inl e ↦ rw e refl
    | inr e ↦ rw e (start_job-registry addresses job (install job.name c))
  ]

  register-same :
      (form : Result String String) (now : ℕ) (c d : SigbenchMux)
      → c.reg_agent_addrs ≡ d.reg_agent_addrs
      → (handle_agent_register form now c).0.reg_agent_addrs
        ≡ (handle_agent_register form now d).0.reg_agent_addrs
  unfolding handle_agent_register
  register-same (err e) now c d h = h
  register-same (ok address) now c d h = elim (Bool-cases (str_eq address "")) [
    | inl e ↦ rw e h
    | inr e ↦ rw e (ap (insert address now) h)
  ]

  register-events :
      (form : Result String String) (now : ℕ) (c d : SigbenchMux)
      → c.reg_agent_addrs ≡ d.reg_agent_addrs
      → (handle_agent_register form now c).0.reg_agent_addrs
        ≡ (run_registry (registration agent_register form now) d).reg_agent_addrs
  unfolding handle_agent_register run_registry
  register-events (err e) now c d h = h
  register-events (ok address) now c d h = register-same (ok address) now c d h

  handle-registry :
      (to : Handler) (req : HttpRequest) (c d : SigbenchMux)
      → c.reg_agent_addrs ≡ d.reg_agent_addrs
      → (handle to req c).0.reg_agent_addrs
        ≡ (run_registry (registration to req.agent_form req.now) d).reg_agent_addrs
  unfolding handle run_registry handle_job_create
  handle-registry job_create req c d h =
      admit_job-registry (read_job decode parse_duration req.job_form) c ∙ h
  handle-registry job_status req c d h = h
  handle-registry agent_register req c d h = register-events req.agent_form req.now c d h
  handle-registry master_exit req c d h = h
  handle-registry index req c d h = h

  run_registry-append :
      (xs ys : List RegistryEvent) (c : SigbenchMux)
      → run_registry (xs ++ ys) c ≡ run_registry ys (run_registry xs c)
  unfolding run_registry
  run_registry-append [] ys c = refl
  run_registry-append (registers a now ∷ xs) ys c =
      run_registry-append xs ys (handle_agent_register (ok a) now c).0
  run_registry-append (checks now ∷ xs) ys c =
      run_registry-append xs ys (check_expired_agents now c)

  pub serve-registry :
      (es : List ServiceEvent) (c d : SigbenchMux)
      → c.reg_agent_addrs ≡ d.reg_agent_addrs
      → (serve es c).reg_agent_addrs ≡ (run_registry (registry_events pick es) d).reg_agent_addrs
  unfolding serve serve_http run_registry check_expired_agents release_controller
  serve-registry [] c d h = h
  serve-registry (requests req ∷ es) c d h =
      let to = pick routes req.path in
      let events = registration to req.agent_form req.now in
      serve-registry es (handle to req c).0 (run_registry events d) (handle-registry to req c d h)
      ∙ ap (λ x. x.reg_agent_addrs) (sym (run_registry-append events (registry_events pick es) d))
  serve-registry (expires now ∷ es) c d h =
      serve-registry es (check_expired_agents now c) (check_expired_agents now d)
        (ap (remove_expired now) h)
  serve-registry (job_ends ∷ es) c d h = serve-registry es (release_controller c) d h

  -- A service that NewServiceMux has made, whose clock does not go back, answers any sequence of
  -- requests to any paths, with expiry checks and ends of jobs in between, so that its registered agents
  -- are exactly those promised by the requests that the routes lead to HandleAgentRegister and by the
  -- checks: no request to another path and no job changes them.
  pub serve-promised :
      (config : ServiceConfig) (es : List ServiceEvent) (c : SigbenchMux)
      → new_service_mux none config ≡ returned c
      → IsOrdered 0 (registry_events pick es)
      → (a : String)
      → lookup a (serve es c).reg_agent_addrs ≡ promised (registry_events pick es) (λ x. none) a
  unfolding new_service_mux
  serve-promised config es c made ordered a =
      let same : new_mux config ≡ c = cc in
      ap (lookup a) (serve-registry es c (new_mux config) (ap (λ x. x.reg_agent_addrs) (sym same)))
      ∙ run_registry-promised config (registry_events pick es) ordered a
