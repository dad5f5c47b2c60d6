-- ===== src/Examples/Snapshots.antt =====
-- Inputs for the theorems about sessions/, snapshot/, base/job.go and the lists of addresses.
use sigbench.Prelude.{
  ℕ, ◌+◌, ◌%◌, ◌≡◌, ◌≢◌, refl, String, true, List, [], ◌∷◌, ◌++◌, map, none, some, Result, ok, err,
  arith, word_mod, sum_of, str_eq, if◌then◌else◌, All,
}
use sigbench.Base.{Job, validate, validate_phase}
use sigbench.Base.Validation.{Validated, validate-Validated}
use sigbench.Sessions.Script.{Interleavings, none_left, one_more, left, right, done, run_adds}
use sigbench.Sessions.HttpGet
use sigbench.Sessions.HttpGet.Balance.{adds_of, responses, failures, execute-balance}
use sigbench.Sessions.Broadcast
use sigbench.Sessions.Sender
use sigbench.Sessions.Broadcast.Account.{Accounts}
use sigbench.Sessions.Kafka
use sigbench.Sessions.Kafka.Account
use sigbench.Sessions.Kafka.Account.{kafka_execute-Accounts}
use sigbench.Snapshot.Json.{
  JsonSnapshotCountersRow, newline, read_lines, write_json_all, encoded_rows,
  read_lines-write_json_all,
}

abbrev job : Job ℕ
job = record {
  name = "load";
  start_time = 0;
  phases =
      record { name = "First"; users_per_second = 10; duration = "10s" }
      ∷ record { name = "Second"; users_per_second = 10; duration = "ten" }
      ∷ [];
  session_names = [];
  session_percentages = [];
  session_params = [];
}

abbrev ten_seconds : String → Result String ℕ
ten_seconds text = if str_eq text "10s" then ok 10000000000 else err "bad duration"

validate-Validated_example : Validated ten_seconds job.phases (some "bad duration")
unfolding validate validate_phase
validate-Validated_example = validate-Validated ten_seconds job

-- One user gets a response after a second and a half, one fails.
abbrev two_fetches : List HttpGet.Fetch
two_fetches =
    record { dials = 1; duration = some 1500000000 } ∷ record { dials = 0; duration = none } ∷ []

abbrev first_adds : List (HttpGet.Field × ℕ)
first_adds =
    (HttpGet.initiated, 1)
    ∷ (HttpGet.dial, 1)
    ∷ (HttpGet.duration_lt_10000, 1)
    ∷ (HttpGet.initiated, 18446744073709551615)
    ∷ (HttpGet.completed, 1)
    ∷ []

abbrev second_adds : List (HttpGet.Field × ℕ)
second_adds =
    (HttpGet.initiated, 1) ∷ (HttpGet.initiated, 18446744073709551615) ∷ (HttpGet.error, 1) ∷ []

abbrev mixed : List (HttpGet.Field × ℕ)
mixed = first_adds ++ second_adds

in_turn : Interleavings (map adds_of two_fetches) mixed
unfolding HttpGet.execute
in_turn =
    one_more (one_more none_left (left _ (left _ (left _ done))))
      (left _ (left _ (left _ (left _ (left _ (right _ (right _ (right _ done))))))))

execute-balance_example :
    let s = run_adds HttpGet.Field-discrete mixed HttpGet.setup in
    (s HttpGet.initiated ≡ 0)
    × (s HttpGet.completed ≡ sum_of responses two_fetches % word_mod)
    × (s HttpGet.error ≡ sum_of failures two_fetches % word_mod)
    × (s HttpGet.dial ≡ sum_of (λ f. f.dials) two_fetches % word_mod)
    × ((s HttpGet.duration_lt_1000 + s HttpGet.duration_lt_10000 + s HttpGet.duration_gte_10000)
          % word_mod
        ≡ s HttpGet.completed)
execute-balance_example = execute-balance two_fetches mixed in_turn

abbrev sender : Sender.Env
sender = record {
  serialize = λ i. ok tt;
  send = λ i. ok tt;
  receive = λ i. some 10;
  close = ok tt;
  closed = true;
}

abbrev broadcast : Broadcast.Env
broadcast = record {
  idx = 1;
  new_request = ok tt;
  handshake = ok (b'0' ∷ b'0' ∷ b'0' ∷ b'0' ∷ b'0' ∷ b'1' ∷ []);
  decode = ok "id";
  dial = ok tt;
  set_protocol = ok tt;
  sender = sender;
}

-- An encoding that shows the time alone, in unary.
abbrev unary : ℕ → List ℕ
unary ℕ.zero = []
unary (ℕ.suc n) = b'1' ∷ unary n

abbrev encode : JsonSnapshotCountersRow → List ℕ
encode row = unary row.time

unary-All : (n : ℕ) → All (λ c. c ≢ newline) (unary n)
unary-All ℕ.zero = tt
unary-All (ℕ.suc n) = (omega arith, unary-All n)

read_lines-write_json_all_example :
    read_lines [] (write_json_all {E = String} (λ row. ok (encode row)) ((2, []) ∷ (3, []) ∷ []) [])
    ≡ encoded_rows {E = String}
        (λ row. ok (encode row))
        encode
        (λ row. refl)
        (λ row. unary-All row.time)
        ((2, []) ∷ (3, []) ∷ [])
read_lines-write_json_all_example =
    read_lines-write_json_all (λ row. ok (encode row)) encode (λ row. refl)
      (λ row. unary-All row.time) ((2, []) ∷ (3, []) ∷ [])

abbrev written : Kafka.Env
written = record { partition = ok 0; dial = ok tt; write = λ i. ok 100 }

abbrev producer : Kafka.KafkaProducer
producer = record { counter = λ f. 0; payload_size = 100; msg_cnt = 2 }

kafka_execute-Accounts_example :
    Account.Accounts 200 (Kafka.execute written producer).0 (Kafka.execute written producer).1
kafka_execute-Accounts_example = kafka_execute-Accounts written producer
