-- ===== src/Examples/Clients.antt =====
-- Inputs for the theorems about the HTTP client of sessions/http_get.go, the connections of
-- sessions/quic.go, and cmd/main.go.
use sigbench.Prelude.{
  ℕ, ◌<◌, ◌≡◌, refl, String, [], ◌∷◌, none, some, Result, ok, returned, arith, inl, sum_below,
  lookup, Option, All,
}
use sigbench.Base.{Job}
use sigbench.Text.{split, join}
use sigbench.Sessions.Api.{Params}
use sigbench.Sessions.Quic.{QuicConnPool, dial_pool, get_conn}
use sigbench.Sessions.Quic.Rounds.{hit, after_gets, get_conn-fair}
use sigbench.Sessions.HttpGet.Client.{Url, Net, new_pool, setup_client}
use sigbench.Sessions.HttpGet.Client.Panics.{IsConsistent, IsReturned, setup_client-IsReturned}
use sigbench.Command.{Flags, Env, Launch, run_main, save_copy}
use sigbench.Command.Cli.{launch_of, run_main-launches}

-- Connections are their numbers.
abbrev dial : ℕ → Result String ℕ
dial i = ok i

abbrev not_dialled : QuicConnPool ℕ
not_dialled = record { n = 3; conns = []; cnt = 7 }

abbrev three : QuicConnPool ℕ
three = record { n = 3; conns = some 0 ∷ some 1 ∷ some 2 ∷ []; cnt = 7 }

get_conn-fair_example :
    (turn : ℕ → ℕ) × ((k : ℕ)
      → k < 3
      → (c : ℕ) × ((get_conn (after_gets k three)).1 ≡ returned (some c)) × (dial (turn k) ≡ ok c))
    × ((i : ℕ) → i < 3 → sum_below 3 (λ k. hit i (turn k)) ≡ 1)
unfolding dial_pool
get_conn-fair_example =
    get_conn-fair {E = String} 100 dial not_dialled three refl (omega arith) (omega arith)

abbrev numbers : String → ℕ × Option String
numbers text = (3, none)

abbrev net : Net ℕ
net = record {
  atoi = numbers;
  parse_int = numbers;
  parse_uint = numbers;
  parse_url = λ text. ok (record { scheme = "https"; host = "proxy:443" });
  default_per_host = 2;
  longest = 1000;
  dial = λ host c streams i. ok i;
}

abbrev proxy : Url
proxy = record { scheme = "https"; host = "proxy:443" }

abbrev quic_with_tls : Params
quic_with_tls = ("proxy", "https://proxy:443") ∷ ("quic", "true") ∷ ("tls", "true") ∷ []

quic_with_tls-IsConsistent : IsConsistent net quic_with_tls
unfolding new_pool lookup
quic_with_tls-IsConsistent = record {
  has_tls = λ e. refl;
  fits = omega arith;
  has_h2 = inl (λ e. cc);
}

setup_client-IsReturned_example : IsReturned (setup_client net quic_with_tls)
setup_client-IsReturned_example =
    setup_client-IsReturned net quic_with_tls quic_with_tls-IsConsistent

abbrev flags : Flags
flags = record {
  mode = "cli";
  config = "config.json";
  out_dir = "out";
  listen_address = ":7000";
  agents = "a:7000,b:7000";
  master_addr = "";
  influx_server_url = "";
  influx_auth_token = "";
  influx_org = "";
  influx_bucket = "";
}

abbrev job : Job ℕ
job = record {
  name = "load";
  start_time = 0;
  phases = [];
  session_names = [];
  session_percentages = [];
  session_params = [];
}

abbrev ready : Env ℕ
ready = record {
  make_dir = λ dir. none;
  dial = λ agent. none;
  open_config = λ file. ok "{}";
  decode = λ text. ok job;
  marshal = λ j. ok "{}";
  write_file = λ file text. none;
}

abbrev launch : Launch ℕ
launch = record { agents = "a:7000" ∷ "b:7000" ∷ []; counters_file = "out/counters.txt"; job = job }

run_main-launches_example :
    (launch ≡ launch_of ready ("a:7000" ∷ "b:7000" ∷ []) "out" job)
    × (ready.make_dir "out" ≡ none)
    × All (λ a. ready.dial a ≡ none) ("a:7000" ∷ "b:7000" ∷ [])
    × ((text : String) × (ready.open_config "config.json" ≡ ok text)
        × (ready.decode text ≡ ok job)
        × (save_copy ready "out" job ≡ none))
unfolding run_main split join
run_main-launches_example =
    run_main-launches ready flags "a:7000" ("b:7000" ∷ []) launch refl refl
      (
        (refl, (refl, (refl, (refl, (refl, (refl, tt)))))),
        ((refl, (refl, (refl, (refl, (refl, (refl, tt)))))), tt),
      )
      refl
