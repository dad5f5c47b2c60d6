-- ===== src/Sessions/RabbitMq/Pool.antt =====
-- RabbitMQChannelPool of sessions/rabbitmq_massive_queue.go. The client of RabbitMQ is a parameter: a
-- connection is whatever state its calls change. The scan without the lock and the one under it follow
-- each other with nothing in between.
use sigbench.Prelude.{
  String, Bool, true, false, List, [], ◌∷◌, ◌++◌, Option, none, some, Result, ok, err,
  if◌then◌else◌,
}

-- conn.Channel() changes the connection, and opens a channel or fails with an error.
pub record AmqpApi : Type 1 where
  pub Conn : Type 0
  pub open_channel : Conn → Conn × Option String

pub record RabbitMqChannelPool (C : Type 0) : Type 0 where
  pub url : String
  pub conns : List C

unfoldable pub new_channel_pool : {C : Type 0} → String → RabbitMqChannelPool C
new_channel_pool url = record { url = url; conns = [] }

unfoldable pub close_pool : {C : Type 0} → RabbitMqChannelPool C → RabbitMqChannelPool C
close_pool p = record p { conns = [] }

module _ (api : AmqpApi) where
  open api use {Conn, open_channel}

  -- The loop over the connections up to the first that opens a channel, and whether there is one.
  unfoldable pub scan : List Conn → List Conn × Bool
  scan [] = ([], false)
  scan (c ∷ cs) =
      let opened = open_channel c in
      let later = scan cs in
      elim opened.1 [ none ↦ (opened.0 ∷ cs, true) | some e ↦ (opened.0 ∷ later.0, later.1) ]

  -- What follows the two scans, by the result of amqp.Dial.
  unfoldable pub dial_channel :
      Result String Conn → RabbitMqChannelPool Conn → RabbitMqChannelPool Conn × Option String
  dial_channel (err e) p = (p, some e)
  dial_channel (ok conn) p = elim (open_channel conn).1 [
    | some e ↦ (p, some e)
    | none ↦ (record p { conns = p.conns ++ (open_channel conn).0 ∷ [] }, none)
  ]

  -- The section under the lock.
  unfoldable pub locked_channel :
      Result String Conn → RabbitMqChannelPool Conn → RabbitMqChannelPool Conn × Option String
  unfolding scan dial_channel
  locked_channel dialled p =
      let scanned = scan p.conns in
      let q : RabbitMqChannelPool Conn = record p { conns = scanned.0 } in
      if scanned.1 then (q, none) else dial_channel dialled q

  unfoldable pub get_channel :
      Result String Conn → RabbitMqChannelPool Conn → RabbitMqChannelPool Conn × Option String
  unfolding locked_channel
  get_channel dialled p =
      let scanned = scan p.conns in
      let q : RabbitMqChannelPool Conn = record p { conns = scanned.0 } in
      if scanned.1 then (q, none) else locked_channel dialled q
