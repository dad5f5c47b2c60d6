-- ===== src/Sessions/Names.antt =====
-- SessionMap of sessions/session.go: all the sessions, with the names of their counters. strconv.Itoa is
-- a parameter.
pub mod Distinct
use Prim.Native.String.{◌++◌ as ◌^^◌}
use text.Mathlib.Text.{starts_with}
use text.Mathlib.TextLemmas.{append_assoc, append_cancel_left}
use text.Mathlib.TextPositions.{starts_with-append}
use sigbench.Prelude.{
  ℕ, zero, suc, ◌≤◌, ◌≡◌, ◌≢◌, ◌∙◌, sym, ap, refl, String, true, false, List, [], ◌∷◌, has_key,
  lt64, str_eq, str_eq_iff, if◌then◌else◌, Bool-cases, inl, inr, All, none, arith,
}
use sigbench.Counters.{Counters, IsMap}
use sigbench.Sessions.Echo
use sigbench.Sessions.HttpGet
use sigbench.Sessions.WebPubSub
use sigbench.Sessions.SignalrEcho
use sigbench.Sessions.Broadcast
use sigbench.Sessions.Broadcast.{instance_counters, max_instances}
use sigbench.Sessions.FxBroadcast
use sigbench.Sessions.Redis
use sigbench.Sessions.RabbitMq.Queues
use sigbench.Sessions.Kafka
use sigbench.Sessions.Pulsar

-- The values of SessionMap, each with its counter fields.
pub data AnySession : Type 0 where
  signalrcore_echo : (Echo.Field → ℕ) → AnySession
  signalrcore_broadcast_sender : (Broadcast.Field → ℕ) → AnySession
  signalrfx_broadcast_sender : (FxBroadcast.Field → ℕ) → AnySession
  redis_pubsub : Redis.RedisPubSub → AnySession
  http_get : (HttpGet.Field → ℕ) → AnySession
  webpubsub_echo : (Echo.Field → ℕ) → AnySession
  rabbitmq_massive_queue : (Queues.Field → ℕ) → AnySession
  kafka_producer : Kafka.KafkaProducer → AnySession
  pulsar_massive_queue : (Pulsar.Field → ℕ) → AnySession

-- The key of the session in SessionMap.
unfoldable pub session_key : AnySession → String
session_key (signalrcore_echo s) = "signalrcore:echo"
session_key (signalrcore_broadcast_sender s) = "signalrcore:broadcast:sender"
session_key (signalrfx_broadcast_sender s) = "signalrfx:broadcast:sender"
session_key (redis_pubsub s) = "redis:pubsub"
session_key (http_get s) = "http:get"
session_key (webpubsub_echo s) = "webpubsub:echo"
session_key (rabbitmq_massive_queue s) = "rabbitmq:massive_queue"
session_key (kafka_producer s) = "kafka:producer"
session_key (pulsar_massive_queue s) = "pulsar:massive_queue"

-- `&SignalRCoreEcho{}` and the others: all counters 0, nothing set up.
unfoldable pub session_map : List (String × AnySession)
session_map =
    ("signalrcore:echo", signalrcore_echo (λ f. 0))
    ∷ ("signalrcore:broadcast:sender", signalrcore_broadcast_sender (λ f. 0))
    ∷ ("signalrfx:broadcast:sender", signalrfx_broadcast_sender (λ f. 0))
    ∷ ("redis:pubsub", redis_pubsub (record { counter = λ f. 0; pool = none; closed_pools = [] }))
    ∷ ("http:get", http_get (λ f. 0))
    ∷ ("webpubsub:echo", webpubsub_echo (λ f. 0))
    ∷ ("rabbitmq:massive_queue", rabbitmq_massive_queue (λ f. 0))
    ∷ (
      "kafka:producer",
      kafka_producer (record { counter = λ f. 0; payload_size = 0; msg_cnt = 0 }),
    )
    ∷ ("pulsar:massive_queue", pulsar_massive_queue (λ f. 0))
    ∷ []

session_map-session_key : All (λ p. p.0 ≡ session_key p.1) session_map
unfolding session_map session_key
session_map-session_key = (refl, (refl, (refl, (refl, (refl, (refl, (refl, (refl, (refl, tt)))))))))

-- The session whose counters have such a name.
unfoldable pub owner : String → String
owner k =
    if starts_with k "signalrcore:broadcast:"
    then "signalrcore:broadcast:sender"
    else if starts_with k "signalrcore:echo:"
    then "signalrcore:echo"
    else if starts_with k "signalrfx:broadcast:"
    then "signalrfx:broadcast:sender"
    else if starts_with k "redis:pubsub:"
    then "redis:pubsub"
    else if starts_with k "webpubsub:echo:"
    then "webpubsub:echo"
    else if starts_with k "rabbitmq:massive_queue:"
    then "rabbitmq:massive_queue"
    else if starts_with k "kafka:producer:"
    then "kafka:producer"
    else if starts_with k "pulsar:massive_queue:"
    then "pulsar:massive_queue"
    else "http:get"

abbrev OwnedBy : String → Counters → Type 0
OwnedBy o = All (λ p. owner p.0 ≡ o)

has_key-owner : (k o : String) (m : Counters) → OwnedBy o m → has_key k m ≡ true → owner k ≡ o
unfolding has_key
has_key-owner k o [] h e = cc
has_key-owner k o ((j, v) ∷ m) h e = elim (Bool-cases (str_eq j k)) [
  | inl same ↦ ap owner (sym ((str_eq_iff j k).0 same)) ∙ h.0
  | inr other ↦ has_key-owner k o m h.1 (ground (arith, other, e))
]

abbrev pub hit : String
hit = "signalrcore:broadcast:instancehit:"

hit-owner : (x : String) → owner (◌^^◌ hit x) ≡ "signalrcore:broadcast:sender"
unfolding owner
hit-owner x =
    let split : ◌^^◌ hit x ≡ ◌^^◌ "signalrcore:broadcast:" (◌^^◌ "instancehit:" x) =
      append_assoc "signalrcore:broadcast:" "instancehit:" x in
    let starts : starts_with (◌^^◌ hit x) "signalrcore:broadcast:" ≡ true =
      ap (λ k. starts_with k "signalrcore:broadcast:") split
      ∙ starts_with-append "signalrcore:broadcast:" (◌^^◌ "instancehit:" x) in
    rw starts refl

module _ (itoa : ℕ → String) where
  unfoldable pub all_counters : AnySession → Counters
  all_counters (signalrcore_echo s) = SignalrEcho.counters s
  all_counters (signalrcore_broadcast_sender s) = Broadcast.counters itoa s
  all_counters (signalrfx_broadcast_sender s) = FxBroadcast.counters s
  all_counters (redis_pubsub s) = Redis.counters s
  all_counters (http_get s) = HttpGet.counters s
  all_counters (webpubsub_echo s) = WebPubSub.counters s
  all_counters (rabbitmq_massive_queue s) = Queues.counters s
  all_counters (kafka_producer s) = Kafka.counters s
  all_counters (pulsar_massive_queue s) = Pulsar.counters s

  instances-OwnedBy :
      (s : Broadcast.Field → ℕ) (n i : ℕ)
      → OwnedBy "signalrcore:broadcast:sender" (instance_counters itoa s n i)
  unfolding instance_counters
  instances-OwnedBy s zero i = tt
  instances-OwnedBy s (suc n) i = elim (Bool-cases (lt64 0 (s (Broadcast.instance_hit i)))) [
    | inl some_hit ↦ rw some_hit (hit-owner (itoa i), instances-OwnedBy s n (suc i))
    | inr none_hit ↦ rw none_hit (instances-OwnedBy s n (suc i))
  ]

  all_counters-OwnedBy : (s : AnySession) → OwnedBy (session_key s) (all_counters s)
  unfolding all_counters session_key owner SignalrEcho.counters Broadcast.counters
      FxBroadcast.counters Redis.counters HttpGet.counters WebPubSub.counters Queues.counters
      Kafka.counters Pulsar.counters
  all_counters-OwnedBy (signalrcore_echo s) = (refl, (refl, (refl, tt)))
  all_counters-OwnedBy (signalrcore_broadcast_sender s) = (
    refl,
    (
      refl,
      (
        refl,
        (
          refl,
          (
            refl,
            (refl, (refl, (refl, (refl, (refl, (refl, instances-OwnedBy s max_instances 0)))))),
          ),
        ),
      ),
    ),
  )
  all_counters-OwnedBy (signalrfx_broadcast_sender s) = (
    refl,
    (refl, (refl, (refl, (refl, (refl, (refl, (refl, (refl, (refl, (refl, (refl, tt))))))))))),
  )
  all_counters-OwnedBy (redis_pubsub s) =
      (refl, (refl, (refl, (refl, (refl, (refl, (refl, (refl, (refl, (refl, (refl, tt)))))))))))
  all_counters-OwnedBy (http_get s) = (refl, (refl, (refl, (refl, (refl, (refl, (refl, tt)))))))
  all_counters-OwnedBy (webpubsub_echo s) = (refl, (refl, (refl, tt)))
  all_counters-OwnedBy (rabbitmq_massive_queue s) = (refl, (refl, (refl, (refl, (refl, tt)))))
  all_counters-OwnedBy (kafka_producer s) = (refl, (refl, (refl, (refl, tt))))
  all_counters-OwnedBy (pulsar_massive_queue s) = (refl, (refl, (refl, (refl, (refl, tt)))))

  -- Two sessions of SessionMap that both have a counter of the same name are the same session, whatever
  -- strconv.Itoa gives: ListCounters and collectCounters add no counter of one to that of another.
  pub counters_apart :
      (s t : AnySession) (k : String)
      → has_key k (all_counters s) ≡ true
      → has_key k (all_counters t) ≡ true
      → session_key s ≡ session_key t
  counters_apart s t k h i =
      sym (has_key-owner k (session_key s) (all_counters s) (all_counters-OwnedBy s) h)
      ∙ has_key-owner k (session_key t) (all_counters t) (all_counters-OwnedBy t) i
