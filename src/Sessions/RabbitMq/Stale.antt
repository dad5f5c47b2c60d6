-- ===== src/Sessions/RabbitMq/Stale.antt =====
-- Which server the pool of sessions/rabbitmq_massive_queue.go dials after a second Setup.
use sigbench.Prelude.{
  ℕ, ◌≡◌, String, [], Option, some, Outcome, returned, panicked, running, ◌>>=◌ as bind_outcome,
  arith,
}
use sigbench.Sessions.Api.{Params}
use sigbench.Sessions.Kafka.{param, number_param, make_payload}
use sigbench.Sessions.RabbitMq.Pool.{RabbitMqChannelPool, close_pool}
use sigbench.Sessions.RabbitMq.Queues.{
  RabbitMqMassiveQueue, setup_delivery_mode, setup_queue_messages, setup_queues, setup_pool, setup,
}

module _ {C : Type 0} (atoi : String → ℕ × Option String) (params : Params) where
  delivery_mode-pool :
      (s : RabbitMqMassiveQueue C) → (setup_delivery_mode atoi params s).0.conn_pool ≡ s.conn_pool
  unfolding setup_delivery_mode
  delivery_mode-pool s = ground arith

  queue_messages-pool :
      (s : RabbitMqMassiveQueue C) → (setup_queue_messages atoi params s).0.conn_pool ≡ s.conn_pool
  unfolding setup_queue_messages
  queue_messages-pool s =
      let set : RabbitMqMassiveQueue C = record s {
        queue_messages = (number_param atoi "queueMessages" 1 params).0;
        queue_type = param "queueType" params;
      } in
      ground (arith, delivery_mode-pool set)

  queues-pool :
      (s : RabbitMqMassiveQueue C) → (setup_queues atoi params s).0.conn_pool ≡ s.conn_pool
  unfolding setup_queues
  queues-pool s =
      let set : RabbitMqMassiveQueue C = record s {
        queues = (number_param atoi "queues" 1 params).0;
      } in
      ground (arith, queue_messages-pool set)

  payload-pool :
      (r t : RabbitMqMassiveQueue C) (o : Option String) (payload : Outcome ℕ)
      → bind_outcome payload
          (λ n. returned (setup_queues atoi params (record r { payload_size = n })))
        ≡ returned (t, o)
      → t.conn_pool ≡ r.conn_pool
  payload-pool r t o (returned n) h = ground (arith, h, queues-pool (record r { payload_size = n }))
  payload-pool r t o (panicked x) h = cc
  payload-pool r t o running h = cc

  -- Whatever the parameters are, a session that has a pool of channels keeps dialling that pool's server:
  -- if Setup comes back, with an error or without, the pool has its old URL, and no connection.
  pub setup-stale_url :
      (s t : RabbitMqMassiveQueue C) (p : RabbitMqChannelPool C) (o : Option String)
      → s.conn_pool ≡ some p
      → setup atoi params s ≡ returned (t, o)
      → t.conn_pool ≡ some (record { url = p.url; conns = [] })
  unfolding setup setup_pool close_pool
  setup-stale_url s t p o has done =
      let size = number_param atoi "messageSize" 100 params in
      let reset : RabbitMqMassiveQueue C = record s {
        counter = λ f. 0;
        conn_pool = some (setup_pool params s.conn_pool);
      } in
      ground (arith, has, done, payload-pool reset t o (make_payload size.0))
