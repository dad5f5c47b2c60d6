-- ===== src/Sessions/Kafka.antt =====
-- KafkaProducer of sessions/kafka.go: Setup and Execute. strconv.Atoi, the connection and what each
-- call of WriteMessages returns are the environment.
pub mod Account
use sigbench.Prelude.{
  List, [], ◌∷◌, ℕ, zero, suc, String, Option, none, some, Result, lookup, str_eq, is_neg,
  minus_one, Outcome, returned, panicked, bad_size, ◌>>=◌ as bind_outcome, if◌then◌else◌,
}
use sigbench.Counters.{Counters}
use sigbench.Sessions.Api.{Params}
use sigbench.Sessions.Script.{Script, ◌>>=◌, ◌>>◌, pure, add, try, defer}

pub data Field : Type 0 where
  in_progress errors success written : Field

pub record KafkaProducer : Type 0 where
  pub counter : Field → ℕ
  pub payload_size : ℕ  -- len(s.payload)
  pub msg_cnt : ℕ

-- `m[k]` of a map of texts.
abbrev pub param : String → Params → String
param k params = elim (lookup k params) [ none ↦ "" | some v ↦ v ]

-- `x := default; if str := params[k]; str != "" { x, err = strconv.Atoi(str) }`: Atoi returns a number
-- beside its error.
unfoldable pub number_param : (String → ℕ × Option String) → String → ℕ → Params → ℕ × Option String
number_param atoi k default params =
    if str_eq (param k params) "" then (default, none) else atoi (param k params)

-- `make([]byte, n)` panics for a negative n.
unfoldable pub make_payload : ℕ → Outcome ℕ
make_payload n = if is_neg n then panicked bad_size else returned n

-- An error leaves the fields behind it as they were.
unfoldable pub setup :
    (String → ℕ × Option String) → Params → KafkaProducer → Outcome (KafkaProducer × Option String)
unfolding number_param make_payload
setup atoi params s =
    let size = number_param atoi "messageSize" 100 params in
    let count = number_param atoi "messageCount" 1 params in
    elim size.1 [
      | some e ↦ returned (record s { counter = λ f. 0 }, some e)
      | none ↦ bind_outcome (make_payload size.0) λ payload.
          returned (record { counter = λ f. 0; payload_size = payload; msg_cnt = count.0 }, count.1)
    ]

pub record Env : Type 0 where
  pub partition : Result String ℕ
  pub dial : Result String (Unit {0})
  pub write : ℕ → Result String ℕ

-- `for i := 0; i < s.msgCnt; i++`
unfoldable pub write_loop : Env → ℕ → ℕ → Script Field (Unit {0})
write_loop env zero i = pure tt
write_loop env (suc n) i =
    let later = write_loop env n (suc i) in
    do count ← try errors (env.write i); add written count; later

abbrev pub rounds : ℕ → ℕ
rounds n = if is_neg n then 0 else n

unfoldable pub execute_body : Env → ℕ → Script Field (Unit {0})
unfolding write_loop
execute_body env msg_cnt = do
  partition ← try errors env.partition
  try errors env.dial
  write_loop env (rounds msg_cnt) 0
  add success 1

unfoldable pub execute : Env → KafkaProducer → Script Field (Unit {0})
unfolding execute_body
execute env s = do add in_progress 1; defer in_progress minus_one (execute_body env s.msg_cnt)

unfoldable pub counters : KafkaProducer → Counters
counters s =
    ("kafka:producer:inprogress", s.counter in_progress)
    ∷ ("kafka:producer:success", s.counter success)
    ∷ ("kafka:producer:error", s.counter errors)
    ∷ ("kafka:producer:written", s.counter written)
    ∷ []
