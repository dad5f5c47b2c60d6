-- ===== src/Examples/Sessions.antt =====
-- Inputs for the theorems about the sessions of SignalR's older protocol, Redis, RabbitMQ and Pulsar.
use sigbench.Prelude.{
  closed_channel, ℕ, suc, ◌+◌, ◌*◌, ◌<◌, ◌≤◌, ◌≡◌, refl, String, List, [], ◌∷◌, none, some, Result,
  ok, err, arith, length, true, false, sum_of, if◌then◌else◌, ltb, lookup,
}
use sigbench.Sessions.Api.{Params}
use sigbench.Sessions.Script.{crash, none_left, one_more}
use sigbench.Sessions.Broadcast.Reader.{Invocation, frame}
use sigbench.Sessions.SignalrEcho.Reader.{
  IsSound, sound, none_left, one_more, is_echo, second_is_foobar, read_all, read_all-echoes,
}
use sigbench.Sessions.Sender
use sigbench.Sessions.Redis
use sigbench.Sessions.Redis.Account as RedisAccount
use sigbench.Sessions.Redis.Account.{redis_execute-Accounts}
use sigbench.Sessions.RabbitMq.Pool
use sigbench.Sessions.RabbitMq.Packed.{IsBounded, get_channels, get_channels-minimal}
use sigbench.Sessions.RabbitMq.Queues
use sigbench.Sessions.RabbitMq.Account as RabbitMqAccount
use sigbench.Sessions.Pulsar
use sigbench.Sessions.Pulsar.Account as PulsarAccount

abbrev for_two_seconds : Params
for_two_seconds = ("broadcastDurationSecs", "2") ∷ []

abbrev two : String → Result String ℕ
two text = ok 2

-- A message every half a second.
abbrev redis : Redis.Env
redis = record {
  interval = ok 500000;
  subscribe = ok tt;
  marshal = λ i. ok tt;
  publish = λ i. ok tt;
  receive = λ i. some 20;
}

redis_execute-Accounts_example :
    RedisAccount.Accounts 4
      (Redis.execute redis two for_two_seconds).0
      (Redis.execute redis two for_two_seconds).1
unfolding Sender.broadcast_duration Redis.total_msg_cnt lookup
redis_execute-Accounts_example = redis_execute-Accounts redis two for_two_seconds

-- A connection is its number of channels, of which it allows two.
abbrev two_channels : Pool.AmqpApi
two_channels = record {
  Conn = ℕ;
  open_channel = λ c. if ltb c 2 then (suc c, none) else (c, some "channel id space exhausted");
}

abbrev as_many : ℕ → ℕ
as_many c = c

two_channels-IsBounded : IsBounded two_channels 2 as_many
two_channels-IsBounded = record {
  pos = omega arith;
  opens = λ c h. (ground arith, ground arith);
  refuses = λ c h. ("channel id space exhausted", ground arith, ground arith);
}

-- Three calls; the second dials in vain, if it has to dial.
abbrev dialled : List (Result String ℕ)
dialled = ok 0 ∷ err "refused" ∷ ok 0 ∷ []

get_channels-minimal_example :
    let (p, opened) =
      get_channels two_channels 2 as_many two_channels-IsBounded dialled
        (Pool.new_channel_pool "amqp://a") in
    (sum_of as_many p.conns ≡ opened)
    × (opened ≤ length p.conns * 2)
    × (length p.conns * 2 < opened + 2)
get_channels-minimal_example =
    get_channels-minimal two_channels 2 as_many two_channels-IsBounded "amqp://a" dialled
      (refl, (tt, (refl, tt)))

abbrev queue : Queues.QueueEnv
queue = record {
  pub_channel = ok tt;
  declare = ok "q-0";
  delete_channel = ok tt;
  sub_channel = ok tt;
  consume = ok tt;
  publish = λ i. ok tt;
  delivery = λ i. Queues.arrives none;
}

abbrev two_queues : Queues.RabbitMqMassiveQueue ℕ
two_queues = record {
  counter = λ f. 0;
  conn_pool = some (record { url = "amqp://a"; conns = 1 ∷ [] });
  payload_size = 100;
  queues = 2;
  queue_messages = 3;
  queue_type = "";
  msg_delivery_mode = 0;
}

abbrev topic : Pulsar.QueueEnv
topic = record {
  create_producer = ok tt;
  subscribe = ok tt;
  unsubscribe = ok tt;
  send = λ i. ok tt;
  late = λ i. false;
  receive = λ i. ok tt;
}

abbrev one_topic : Pulsar.PulsarMassiveQueue ℕ
one_topic = record {
  counter = λ f. 0;
  client = none;
  closed_clients = [];
  payload_size = 100;
  queues = 1;
  queue_messages = 1;
}

abbrev topic_adds : List (Pulsar.Field × ℕ)
topic_adds =
    (Pulsar.in_progress, 1)
    ∷ (Pulsar.published, 1)
    ∷ (Pulsar.in_progress, 18446744073709551615)
    ∷ (Pulsar.success, 1)
    ∷ []

abbrev echo : Invocation
echo = record { type = 1; target = "echo"; arguments = "id" ∷ "foobar" ∷ [] }

echo-IsSound : IsSound (frame 80 (ok echo)) true
unfolding is_echo second_is_foobar
echo-IsSound = sound 79 echo true refl

read_all-echoes_example :
    (read_all false (frame 80 (ok echo) ∷ frame 80 (ok echo) ∷ [])).1 ≡ crash closed_channel
read_all-echoes_example =
    read_all-echoes (one_more true echo-IsSound (one_more true echo-IsSound none_left))
