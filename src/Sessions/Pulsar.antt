-- ===== src/Sessions/Pulsar.antt =====
-- PulsarMassiveQueue of sessions/pulsar_massive_queue.go: Setup, Execute with doQueue and its subscriber,
-- and Counters. What the client of Pulsar answers is the environment, with the clock's part in it; the
-- contents of the payload are random, and what fmt adds to an error's text is left out.
pub mod Weights
pub mod Account
use sigbench.Prelude.{
  ℕ, zero, suc, String, Bool, true, false, List, [], ◌∷◌, ◌++◌, Option, none, some, Result, ok, err,
  Outcome, returned, ◌>>=◌ as bind_outcome, minus_one, if◌then◌else◌,
}
use sigbench.Counters.{Counters}
use sigbench.Sessions.Api.{Params}
use sigbench.Sessions.Script.{
  Ending, value, error, crash, blocked, Script, ◌>>=◌, ◌>>◌, pure, add, fail, block, defer,
}
use sigbench.Sessions.Sender.{rounds}
use sigbench.Sessions.Kafka.{param, number_param, make_payload}

-- The counter fields.
pub data Field : Type 0 where
  in_progress errors success published received : Field

pub record PulsarMassiveQueue (C : Type 0) : Type 0 where
  pub counter : Field → ℕ
  pub client : Option C
  pub closed_clients : List C
  pub payload_size : ℕ  -- len(s.payload)
  pub queues : ℕ
  pub queue_messages : ℕ

-- `s.client.Close()` for an old client.
abbrev pub close_old : {C : Type 0} → Option C → List C → List C
close_old none closed = closed
close_old (some c) closed = c ∷ closed

module _ {C : Type 0} (atoi : String → ℕ × Option String) (params : Params) where
  unfoldable pub setup_queue_messages : PulsarMassiveQueue C → PulsarMassiveQueue C × Option String
  unfolding number_param
  setup_queue_messages s =
      let count = number_param atoi "queueMessages" 1 params in
      (record s { queue_messages = count.0 }, count.1)

  unfoldable pub setup_queues : PulsarMassiveQueue C → PulsarMassiveQueue C × Option String
  unfolding number_param setup_queue_messages
  setup_queues s =
      let count = number_param atoi "queues" 1 params in
      let set : PulsarMassiveQueue C = record s { queues = count.0 } in
      elim count.1 [ some e ↦ (set, some e) | none ↦ setup_queue_messages set ]

  unfoldable pub setup_payload :
      PulsarMassiveQueue C → Outcome (PulsarMassiveQueue C × Option String)
  unfolding number_param make_payload setup_queues
  setup_payload s =
      let size = number_param atoi "messageSize" 100 params in
      elim size.1 [
        | some e ↦ returned (s, some e)
        | none ↦
            bind_outcome (make_payload size.0)
              λ payload. returned (setup_queues (record s { payload_size = payload }))
      ]

  -- `new_client` is pulsar.NewClient by its URL. An error leaves the fields behind it as they were.
  unfoldable pub setup :
      (String → Option C × Option String)
      → PulsarMassiveQueue C
      → Outcome (PulsarMassiveQueue C × Option String)
  unfolding setup_payload
  setup new_client s =
      let made = new_client (param "url" params) in
      let reset : PulsarMassiveQueue C = record s {
        counter = λ f. 0;
        client = made.0;
        closed_clients = close_old s.client s.closed_clients;
      } in
      elim made.1 [ some e ↦ returned (reset, some e) | none ↦ setup_payload reset ]

unfoldable pub counters : (Field → ℕ) → Counters
counters s =
    ("pulsar:massive_queue:inprogress", s in_progress)
    ∷ ("pulsar:massive_queue:success", s success)
    ∷ ("pulsar:massive_queue:error", s errors)
    ∷ ("pulsar:massive_queue:msg_published", s published)
    ∷ ("pulsar:massive_queue:msg_received", s received)
    ∷ []

-- What the client answers to one call of doQueue.
pub record QueueEnv : Type 0 where
  pub create_producer : Result String (Unit {0})
  pub subscribe : Result String (Unit {0})
  pub unsubscribe : Result String (Unit {0})
  pub send : ℕ → Result String (Unit {0})
  pub late : ℕ → Bool  -- the subscriber's time is over, before its i-th receive
  pub receive : ℕ → Result String (Unit {0})

-- The goroutine: what it sends to exitChan, if all of it is received.
unfoldable pub receive_loop : QueueEnv → ℕ → ℕ → List (Option String)
receive_loop env zero i = none ∷ []
receive_loop env (suc n) i =
    let later = receive_loop env n (suc i) in
    if env.late i
    then some "Subscriber timeout" ∷ []
    else elim (env.receive i) [ ok _ ↦ later | err e ↦ some "Fail to consume" ∷ later ]

-- `return <-exitChan`: the first that is sent.
unfoldable pub await_exit : List (Option String) → Script Field (Unit {0})
await_exit [] = block
await_exit (none ∷ later) = pure tt
await_exit (some e ∷ later) = fail e

-- An error that is not logged.
abbrev pub or_fail : Result String (Unit {0}) → Script Field (Unit {0})
or_fail (ok a) = pure a
or_fail (err e) = fail e

-- A failed message counts as an error, and the loop goes on.
unfoldable pub publish_loop : QueueEnv → ℕ → ℕ → Script Field (Unit {0})
publish_loop env zero i = pure tt
publish_loop env (suc n) i =
    let later = publish_loop env n (suc i) in
    elim (env.send i) [ ok _ ↦ add published 1 >> later | err e ↦ add errors 1 >> later ]

module _ (queue_messages : ℕ) (env : QueueEnv) where
  -- The deferred call logs an error if the consumer cannot unsubscribe.
  unfoldable pub unsubscribing : Script Field (Unit {0}) → Script Field (Unit {0})
  unsubscribing m = elim env.unsubscribe [ ok _ ↦ m | err _ ↦ defer errors 1 m ]

  unfoldable pub with_consumer : Script Field (Unit {0})
  unfolding publish_loop receive_loop await_exit
  with_consumer =
      publish_loop env (rounds queue_messages) 0
      >> await_exit (receive_loop env (rounds queue_messages) 0)

  unfoldable pub do_queue : Script Field (Unit {0})
  unfolding unsubscribing with_consumer
  do_queue = do
    add in_progress 1
    defer in_progress minus_one
        (or_fail env.create_producer >> or_fail env.subscribe >> unsubscribing with_consumer)

  -- What follows doQueue in the goroutine of a queue.
  abbrev pub counted : Ending (Unit {0}) → List (Field × ℕ)
  counted (value a) = (success, 1) ∷ []
  counted (error e) = (errors, 1) ∷ []
  counted (crash p) = []
  counted blocked = []

  -- All that the goroutine of a queue adds.
  unfoldable pub queue_thread : List (Field × ℕ)
  unfolding do_queue
  queue_thread = do_queue.0 ++ counted do_queue.1

-- The goroutines that Execute starts and waits for; it returns nil.
unfoldable pub queue_threads : ℕ → (ℕ → QueueEnv) → ℕ → ℕ → List (List (Field × ℕ))
unfolding queue_thread
queue_threads queue_messages env zero i = []
queue_threads queue_messages env (suc n) i =
    queue_thread queue_messages (env i) ∷ queue_threads queue_messages env n (suc i)

unfoldable pub execute :
    {C : Type 0} → PulsarMassiveQueue C → (ℕ → QueueEnv) → List (List (Field × ℕ))
unfolding queue_threads
execute s env = queue_threads s.queue_messages env (rounds s.queues) 0
