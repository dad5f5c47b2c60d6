-- ===== src/Command/Modes.antt =====
-- startAsAgent, autoRegisterAgent and startAsService of cmd/main.go, and how the first two meet the
-- service. net.Listen, http.PostForm and http.ListenAndServe are parameters; the servers behind them are
-- not modelled.
use Prim.Native.String.{◌++◌ as ◌^^◌}
use sigbench.Prelude.{
  ℕ, ◌≡◌, ◌≢◌, ◌∙◌, refl, ap, String, List, [], ◌∷◌, Option, none, some, Result, ok, err, Outcome,
  ◌>>=◌, returned, panicked, fatal, lookup, insert, lookup-insert, false, Bool-cases, inl, inr,
  str_eq, str_eq_iff, ◌==◌, not, if◌then◌else◌, arith,
}
use sigbench.Base.{Job}
use sigbench.Counters.{IsMap}
use sigbench.Service.Mux.{ServiceConfig, SigbenchMux, status}
use sigbench.Service.Registry.{handle_agent_register}
use sigbench.Service.Heartbeat.{IsAlive, last_seen, run_registry-keeps}
use sigbench.Service.Serve.{
  Handler, agent_register, routes, HttpRequest, response, handle, serve_http, ServiceEvent, serve,
  registry_events, serve-registry, new_service_mux,
}

-- A POST of the form {"agentAddress": …}.
pub record Post : Type 0 where
  pub url : String
  pub agent_address : String

-- What the loop logs of an answer: an error of PostForm, or a status.
pub data Attempt : Type 0 where
  failed : String → Attempt
  bad_status : ℕ → Attempt
  registered : Attempt

unfoldable pub attempt : Result String ℕ → Attempt
attempt (err e) = failed e
attempt (ok code) = if not (code == 200) then bad_status code else registered

-- One POST at every tick, whatever has come of those before; the answers are PostForm's.
unfoldable pub auto_register_agent :
    String → String → List (Result String ℕ) → List (Post × Attempt)
unfolding attempt
auto_register_agent agent_addr master_addr [] = []
auto_register_agent agent_addr master_addr (answer ∷ answers) =
    (
      record { url = ◌^^◌ master_addr "/agent/register"; agent_address = agent_addr },
      attempt answer,
    )
    ∷ auto_register_agent agent_addr master_addr answers

-- An agent that serves: its address, and the master that its goroutine registers it with, if any.
-- `listening` is the error of net.Listen.
unfoldable pub start_as_agent : Option String → String → String → Outcome (String × Option String)
start_as_agent (some e) address master_addr = panicked fatal
start_as_agent none address master_addr =
    returned (address, if not (str_eq master_addr "") then some master_addr else none)

-- The service never returns: ListenAndServe ends with an error, and that ends the process.
unfoldable pub start_as_service : Option String → ServiceConfig → Outcome SigbenchMux
unfolding new_service_mux
start_as_service make_dir config = new_service_mux make_dir config >>= λ mux. panicked fatal

registers_now :
    (a : String) (now : ℕ) (c : SigbenchMux)
    → a ≢ ""
    → handle_agent_register (ok a) now c
      ≡ (record c { reg_agent_addrs = insert a now c.reg_agent_addrs }, status 200)
unfolding handle_agent_register
registers_now a now c plain = elim (Bool-cases (str_eq a "")) [
  | inl e ↦ absurd (plain ((str_eq_iff a "").0 e))
  | inr e ↦ rw e refl
]

module _ {F : Type 0} (pick : List (String × Handler) → String → Handler)
    (decode : String → Result String (Job F)) (parse_duration : String → Result String ℕ)
    (dial : String → Option String) (sort : List String → List String) where
  -- If the routes lead the path of the POST to HandleAgentRegister, and the form holds an address that
  -- is not empty, then the service answers a POST of the agent with a status that the agent takes for a
  -- success, and from then on lists the agent with that time.
  pub post-registers :
      (post : Post) (req : HttpRequest) (c : SigbenchMux)
      → pick routes req.path ≡ agent_register
      → req.agent_form ≡ ok post.agent_address
      → post.agent_address ≢ ""
      → (code : ℕ) × ((serve_http pick decode parse_duration dial sort req c).1
          ≡ response (status code))
        × (attempt (ok code) ≡ registered)
        × (lookup post.agent_address
              (serve_http pick decode parse_duration dial sort req c).0.reg_agent_addrs
            ≡ some req.now)
  unfolding serve_http handle attempt
  post-registers post req c route form plain =
      let a = post.agent_address in
      let served : serve_http pick decode parse_duration dial sort req c ≡ (
        record c { reg_agent_addrs = insert a req.now c.reg_agent_addrs },
        response (status 200),
        none,
        false,
      ) =
        ap (λ h. handle pick decode parse_duration dial sort h req c) route
        ∙ ap (λ r. (r.0, response r.1, none, false))
            (ap (λ f. handle_agent_register f req.now c) form ∙ registers_now a req.now c plain) in
      (
        200,
        ap (λ r. r.1) served,
        refl,
        ap (λ r. lookup a r.0.reg_agent_addrs) served
            ∙ lookup-insert a a req.now c.reg_agent_addrs
            ∙ ground (arith, str_eq_iff a a),
      )

  -- An agent whose address is not empty and that is listed stays listed, with the time of its newest
  -- registration, over any requests to the service, expiry checks and ends of jobs in which no check
  -- comes more than 15 seconds after that agent's newest registration before it.
  pub serve-keeps :
      (a : String) (last : ℕ) (es : List ServiceEvent) (c : SigbenchMux)
      → a ≢ ""
      → IsMap c.reg_agent_addrs
      → lookup a c.reg_agent_addrs ≡ some last
      → IsAlive a last (registry_events pick es)
      → lookup a (serve pick decode parse_duration dial sort es c).reg_agent_addrs
        ≡ some (last_seen a last (registry_events pick es))
  serve-keeps a last es c plain m here alive =
      ap (lookup a) (serve-registry pick decode parse_duration dial sort es c c refl)
      ∙ run_registry-keeps a last (registry_events pick es) c plain m here alive
