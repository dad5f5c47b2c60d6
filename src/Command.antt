-- ===== src/Command.antt =====
-- cmd/main.go: the three modes, and how the command line's master gets to its job. The file system,
-- encoding/json and the calls of the agents are the environment; a fatal error is the first text that it
-- logs.
pub mod Cli
pub mod Modes
use sigbench.Prelude.{
  ℕ, ◌≡◌, String, Bool, List, [], ◌∷◌, Option, none, some, Result, ok, err, str_eq, ◌==◌, not,
  if◌then◌else◌,
}
use sigbench.Base.{Job}
use sigbench.Text.{split}
use sigbench.Service.Mux.{ServiceConfig}
use Prim.Native.String.{◌++◌ as ◌^^◌}

-- The flags, after flag.Parse().
pub record Flags : Type 0 where
  pub mode : String
  pub config : String
  pub out_dir : String
  pub listen_address : String
  pub agents : String
  pub master_addr : String
  pub influx_server_url : String
  pub influx_auth_token : String
  pub influx_org : String
  pub influx_bucket : String

-- The call that main ends with.
pub data Start : Type 0 where
  start_as_master : List String → String → String → Start
  start_as_service : String → ServiceConfig → Start
  start_as_agent : String → String → Start

unfoldable pub main : Flags → Start
main f =
    if str_eq f.mode "cli"
    then start_as_master (split f.agents) f.config f.out_dir
    else if str_eq f.mode "service"
    then start_as_service f.listen_address (record {
      out_dir = f.out_dir;
      influx_server_url = f.influx_server_url;
      influx_auth_token = f.influx_auth_token;
      influx_org = f.influx_org;
      influx_bucket = f.influx_bucket;
    })
    else start_as_agent f.listen_address f.master_addr

-- What startAsMaster meets.
pub record Env (F : Type 0) : Type 0 where
  pub make_dir : String → Option String
  pub dial : String → Option String
  pub open_config : String → Result String String
  pub decode : String → Result String (Job F)
  pub marshal : Job F → Result String String
  pub write_file : String → String → Option String

-- `c.Run(&job)`, with the file of its snapshot writer.
pub record Launch (F : Type 0) : Type 0 where
  pub agents : List String
  pub counters_file : String
  pub job : Job F

module _ {F : Type 0} (env : Env F) where
  -- The loop over the agents, which appends each to c.Agents.
  unfoldable pub register_all : List String → Option String
  register_all [] = none
  register_all (agent ∷ rest) =
      let later = register_all rest in
      elim (env.dial agent) [ none ↦ later | some e ↦ some "Fail to register agent: " ]

  unfoldable pub save_copy : String → Job F → Option String
  save_copy out_dir job = elim (env.marshal job) [
    | err e ↦ some "Fail to encode a copy of config file: "
    | ok copy ↦ elim (env.write_file (◌^^◌ out_dir "/config.json") copy) [
      | some e ↦ some "Fail to save a copy of config file: "
      | none ↦ none
    ]
  ]

  unfoldable pub load_job : String → String → Result String (Job F)
  unfolding save_copy
  load_job config out_dir = elim (env.open_config config) [
    | err e ↦ err "Fail to open config file: "
    | ok text ↦ elim (env.decode text) [
      | err e ↦ err "Fail to load config file: "
      | ok job ↦ elim (save_copy out_dir job) [ some e ↦ err e | none ↦ ok job ]
    ]
  ]

  -- Below the test of the agents' number.
  unfoldable pub prepare : List String → String → String → Result String (Launch F)
  unfolding register_all load_job
  prepare agents config out_dir = elim (env.make_dir out_dir) [
    | some e ↦ err e
    | none ↦ elim (register_all agents) [
      | some e ↦ err e
      | none ↦ elim (load_job config out_dir) [
        | err e ↦ err e
        | ok job ↦
            ok (record { agents = agents; counters_file = ◌^^◌ out_dir "/counters.txt"; job = job })
      ]
    ]
  ]

  unfoldable pub run_master : List String → String → String → Result String (Launch F)
  unfolding prepare
  run_master [] config out_dir = err "No agents specified"
  run_master (agent ∷ agents) config out_dir = prepare (agent ∷ agents) config out_dir

  -- The program in its mode "cli"; the other modes serve, and launch nothing themselves.
  unfoldable pub run_main : Flags → Option (Result String (Launch F))
  unfolding main run_master
  run_main f = elim (main f) [
    | start_as_master agents config out_dir ↦ some (run_master agents config out_dir)
    | start_as_service address config ↦ none
    | start_as_agent address master_addr ↦ none
  ]
