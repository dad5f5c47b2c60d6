-- ===== src/Sessions/RabbitMq/Queues.antt =====
-- RabbitMQMassiveQueue of sessions/rabbitmq_massive_queue.go: Setup, Execute with doQueue and its
-- subscriber, and Counters. What the client of RabbitMQ answers is the environment; the contents of the
-- payload are random, and what fmt adds to an error's text is left out.
use sigbench.Prelude.{
  ℕ, zero, suc, ◌%◌, String, ◌||◌, [], ◌∷◌, Option, none, some, Result, ok, err, Outcome, returned,
  ◌>>=◌ as bind_outcome, minus_one, str_eq, is_neg, ◌==◌, if◌then◌else◌,
}
use sigbench.Counters.{Counters}
use sigbench.Sessions.Api.{Params}
use sigbench.Sessions.Script.{
  Ending, value, error, crash, blocked, Script, ◌>>=◌, ◌>>◌, pure, add, fail, block, try, defer,
  logged,
}
use sigbench.Sessions.Kafka.{param, number_param, make_payload}
use sigbench.Sessions.RabbitMq.Pool.{RabbitMqChannelPool, new_channel_pool, close_pool}

-- The counter fields.
pub data Field : Type 0 where
  in_progress errors success published received : Field

pub record RabbitMqMassiveQueue (C : Type 0) : Type 0 where
  pub counter : Field → ℕ
  pub conn_pool : Option (RabbitMqChannelPool C)
  pub payload_size : ℕ  -- len(s.payload)
  pub queues : ℕ
  pub queue_messages : ℕ
  pub queue_type : String
  pub msg_delivery_mode : ℕ  -- uint8

unfoldable pub setup_pool :
    {C : Type 0} → Params → Option (RabbitMqChannelPool C) → RabbitMqChannelPool C
setup_pool params none = new_channel_pool (param "url" params)
setup_pool params (some p) = close_pool p

module _ {C : Type 0} (atoi : String → ℕ × Option String) (params : Params) where
  unfoldable pub setup_delivery_mode :
      RabbitMqMassiveQueue C → RabbitMqMassiveQueue C × Option String
  setup_delivery_mode s =
      let mode = atoi (param "deliveryMode" params) in
      let reset : RabbitMqMassiveQueue C = record s { msg_delivery_mode = 0 } in
      if str_eq (param "deliveryMode" params) "" then (reset, none) else elim mode.1 [
        | some e ↦ (reset, some e)
        | none ↦ (record s { msg_delivery_mode = mode.0 % 256 }, none)
      ]

  unfoldable pub setup_queue_messages :
      RabbitMqMassiveQueue C → RabbitMqMassiveQueue C × Option String
  unfolding number_param setup_delivery_mode
  setup_queue_messages s =
      let count = number_param atoi "queueMessages" 1 params in
      let set : RabbitMqMassiveQueue C = record s { queue_messages = count.0 } in
      elim count.1 [
        | some e ↦ (set, some e)
        | none ↦ setup_delivery_mode (record set { queue_type = param "queueType" params })
      ]

  unfoldable pub setup_queues : RabbitMqMassiveQueue C → RabbitMqMassiveQueue C × Option String
  unfolding number_param setup_queue_messages
  setup_queues s =
      let count = number_param atoi "queues" 1 params in
      let set : RabbitMqMassiveQueue C = record s { queues = count.0 } in
      elim count.1 [ some e ↦ (set, some e) | none ↦ setup_queue_messages set ]

  -- An error leaves the fields behind it as they were.
  unfoldable pub setup : RabbitMqMassiveQueue C → Outcome (RabbitMqMassiveQueue C × Option String)
  unfolding number_param make_payload setup_pool setup_queues
  setup s =
      let size = number_param atoi "messageSize" 100 params in
      let reset : RabbitMqMassiveQueue C = record s {
        counter = λ f. 0;
        conn_pool = some (setup_pool params s.conn_pool);
      } in
      elim size.1 [
        | some e ↦ returned (reset, some e)
        | none ↦
            bind_outcome (make_payload size.0)
              λ payload. returned (setup_queues (record reset { payload_size = payload }))
      ]

unfoldable pub counters : (Field → ℕ) → Counters
counters s =
    ("rabbitmq:massive_queue:inprogress", s in_progress)
    ∷ ("rabbitmq:massive_queue:success", s success)
    ∷ ("rabbitmq:massive_queue:error", s errors)
    ∷ ("rabbitmq:massive_queue:msg_published", s published)
    ∷ ("rabbitmq:massive_queue:msg_received", s received)
    ∷ []

-- What the subscriber's channel gives: a message, with the error of its Ack; its end; or nothing, ever.
pub data Delivery : Type 0 where
  arrives : Option String → Delivery
  closed never : Delivery

-- What the client answers to one call of doQueue.
pub record QueueEnv : Type 0 where
  pub pub_channel : Result String (Unit {0})
  pub declare : Result String String
  pub delete_channel : Result String (Unit {0})
  pub sub_channel : Result String (Unit {0})
  pub consume : Result String (Unit {0})
  pub publish : ℕ → Result String (Unit {0})
  pub delivery : ℕ → Delivery

-- The rounds of `for i := 0; i < n; i++`.
abbrev pub rounds : ℕ → ℕ
rounds n = if is_neg n then 0 else n

-- The goroutine: its additions, and what it sends to exitChan. It waits for ever on a message that does
-- not come.
unfoldable pub receive_loop : (ℕ → Delivery) → ℕ → ℕ → Script Field (Option String)
receive_loop delivery zero i = pure none
receive_loop delivery (suc n) i =
    let later = receive_loop delivery n (suc i) in
    elim (delivery i) [
      | never ↦ block
      | closed ↦ pure (some "Queue closed too early")
      | arrives (some e) ↦ pure (some "Fail to ack")
      | arrives none ↦ (add received 1 >> later)
    ]

-- `return <-exitChan`, by what the goroutine sends.
unfoldable pub await_exit : Ending (Option String) → Script Field (Unit {0})
await_exit (value none) = pure tt
await_exit (value (some e)) = fail e
await_exit (error e) = block
await_exit (crash p) = block
await_exit blocked = block

-- An error that is not logged.
abbrev pub or_fail : {A : Type 0} → Result String A → Script Field A
or_fail (ok a) = pure a
or_fail (err e) = fail e

module _ (queue_messages : ℕ) (env : QueueEnv) where
  unfoldable pub publish_loop : ℕ → ℕ → Script Field (Unit {0})
  publish_loop zero i = pure tt
  publish_loop (suc n) i =
      let later = publish_loop n (suc i) in do try errors (env.publish i); add published 1; later

  -- `if s.queueMessages > 0 { … }`
  unfoldable pub subscribe : Script Field (Unit {0})
  subscribe =
      if is_neg queue_messages || queue_messages == 0
      then pure tt
      else (try errors env.sub_channel >> try errors env.consume)

  unfoldable pub with_queue : Script Field (Unit {0})
  unfolding subscribe publish_loop await_exit receive_loop
  with_queue = do
    subscribe
    publish_loop (rounds queue_messages) 0
    await_exit (receive_loop env.delivery (rounds queue_messages) 0).1

  -- The deferred deletion logs an error if no channel opens.
  unfoldable pub deleting : Script Field (Unit {0}) → Script Field (Unit {0})
  deleting m = elim env.delete_channel [ ok _ ↦ m | err _ ↦ defer errors 1 m ]

  unfoldable pub queue_body : Script Field (Unit {0})
  unfolding with_queue deleting
  queue_body = do try errors env.pub_channel; name ← or_fail env.declare; deleting with_queue

  unfoldable pub do_queue : Script Field (Unit {0})
  unfolding queue_body
  do_queue = do add in_progress 1; defer in_progress minus_one queue_body

module _ (queue_messages : ℕ) (env : ℕ → QueueEnv) where
  unfoldable pub queue_loop : ℕ → ℕ → Script Field (Unit {0})
  unfolding do_queue
  queue_loop zero i = pure tt
  queue_loop (suc n) i =
      let later = queue_loop n (suc i) in
      do logged errors (do_queue queue_messages (env i)); add success 1; later

unfoldable pub execute :
    {C : Type 0} → RabbitMqMassiveQueue C → (ℕ → QueueEnv) → Script Field (Unit {0})
unfolding queue_loop
execute s env = queue_loop s.queue_messages env (rounds s.queues) 0
