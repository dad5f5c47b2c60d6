-- ===== src/Examples/Conversations.antt =====
-- Inputs for the theorems about the two threads of sessions/webpubsub_echo.go, the channel of latencies,
-- the subscriber of sessions/redis_pubsub.go, and the names of counters.
use sigbench.Prelude.{
  All, List, String, [], false, has_key, length, minus_one, ok, refl, run_steps, suc, sum_of, some,
  arith, true, zero, ℕ, ◌++◌, ◌+◌, ◌∷◌, ◌≡◌, ◌≢◌, ◌≤◌, ◌⊎◌,
}
use sigbench.Sessions.WebPubSub
use sigbench.Sessions.Names.{
  AnySession, signalrcore_broadcast_sender, webpubsub_echo, session_key, all_counters,
  counters_apart,
}
use sigbench.Sessions.Sender.Channel
use sigbench.Sessions.Sender.Channel.{RecvChan, use_chan, use_chan-goes_through}
use sigbench.Sessions.Redis
use sigbench.Sessions.Redis.Exit
use sigbench.Sessions.Redis.Exit.{pub_sub-listens}
use sigbench.Sessions.Script.{Ending, error}
use sigbench.Sessions.Echo.{in_progress, errors, to_errors}
use sigbench.Sessions.WebPubSub.{WebPubSubEvent, classify, message, echo_round}
use sigbench.Sessions.WebPubSub.Reader.{
  read_failed, at_joined, returned, Conversation, start, Event, reads, takes, times_out, step,
  converse, sending, closing, stopped,
}
use sigbench.Sessions.WebPubSub.Sends.{IsInSend}
use sigbench.Sessions.WebPubSub.Leaks.{IsDecoded, success-leaks}
use sigbench.Sessions.WebPubSub.Doubles.{error_counts_twice}
use sigbench.Sessions.WebPubSub.Stalls.{timed_out, stray-times_out}
use sigbench.Sessions.WebPubSub.Succeeds.{delivered, succeeded}

abbrev format : WebPubSubEvent → String
format ev = "Unexpected message"

abbrev ack : ℕ → WebPubSubEvent
ack id = record { type = "ack"; event = ""; from = ""; ack_id = id; data_text = "" }

abbrev conn : WebPubSubEvent
conn = record { type = "system"; event = "connected"; from = ""; ack_id = 0; data_text = "" }

abbrev foobar : WebPubSubEvent
foobar = record { type = "message"; event = ""; from = "group"; ack_id = 0; data_text = "foobar" }

abbrev echoing : List Event
echoing = delivered (conn ∷ ack 1 ∷ ack 2 ∷ foobar ∷ [])

-- Execute has returned nil and has closed the connection: the read fails.
abbrev closed : List Event
closed = reads (read_failed false) ∷ []

abbrev hanging : Conversation
hanging = record succeeded { reader = closing }

abbrev echoing_decoded : All IsDecoded echoing
echoing_decoded = (tt, (tt, (tt, (tt, (tt, (tt, (tt, (tt, tt))))))))

success-leaks_example :
    (hanging.reader ≢ stopped) × (length closed ≤ 1) × ((closed ≡ []) ⊎ IsInSend hanging.reader)
unfolding converse run_steps step start classify echo_round
success-leaks_example =
    success-leaks format echoing closed succeeded hanging refl echoing_decoded refl refl (tt, tt)

-- The connection breaks while Execute waits to be connected.
abbrev broken : Conversation
broken = record start { reader = closing; by_reader = (errors, 1) ∷ [] }

abbrev failed : Conversation
failed = record broken {
  reader = stopped;
  stage = returned (error "Unexpected close");
  own = (in_progress, 1) ∷ (errors, 1) ∷ (in_progress, minus_one) ∷ [];
}

error_counts_twice_example :
    ((e : String) × (◌≡◌ {A = Ending (Unit {0})} (error "Unexpected close") (error e)))
    × (sum_of to_errors failed.own + sum_of to_errors failed.by_reader ≡ 2)
unfolding converse run_steps step start
error_counts_twice_example =
    error_counts_twice format (reads (read_failed true) ∷ []) (takes (ok tt) ∷ []) broken failed
      (error "Unexpected close") refl (λ e. cc) tt refl refl

-- A message comes before the ack of joining.
abbrev early : Conversation
early = record start { stage = at_joined; reader = sending (message "hello") }

abbrev late : Conversation
late = record early {
  stage = returned (error "Join group ack timeout");
  own = (in_progress, 1) ∷ (errors, 1) ∷ (in_progress, minus_one) ∷ [];
}

stray-times_out_example :
    (◌≡◌ {A = Ending (Unit {0})} (error "Join group ack timeout") (timed_out at_joined))
    × (late.reader ≡ sending (message "hello"))
unfolding converse run_steps step start
stray-times_out_example =
    stray-times_out format (times_out ∷ []) early late at_joined (message "hello")
      (error "Join group ack timeout") refl refl tt refl refl

-- A session of each of two kinds that name a counter alike would be the same.
abbrev itoa : ℕ → String
itoa n = "7"

counters_apart_example :
    session_key (webpubsub_echo (λ f. 3)) ≡ session_key (webpubsub_echo (λ f. 4))
unfolding all_counters WebPubSub.counters has_key
counters_apart_example =
    counters_apart itoa (webpubsub_echo (λ f. 3)) (webpubsub_echo (λ f. 4)) "webpubsub:echo:error"
      refl refl

-- Numbers in unary in place of decimals.
abbrev tally : ℕ → String
tally zero = String.[]
tally (suc n) = String.◌∷◌ "|" (tally n)

abbrev two_hits : AnySession
two_hits = signalrcore_broadcast_sender (λ f. 1)

-- Two messages of a broadcast of two seconds; Execute has taken the first.
abbrev arriving : List Channel.Event
arriving = Channel.arrives 5 ∷ Channel.puts ∷ Channel.takes ∷ Channel.arrives 7 ∷ []

abbrev second_arrived : RecvChan
second_arrived = record {
  size = 2;
  buffer = [];
  putter = Channel.putting 7;
  arrived = 5 ∷ 7 ∷ [];
  taken = 5 ∷ [];
}

use_chan-goes_through_example :
    (d : RecvChan) × (Channel.step second_arrived Channel.puts ≡ some d)
    × (d.arrived ≡ d.taken ++ d.buffer)
unfolding use_chan run_steps Channel.step Channel.new_recv_chan
use_chan-goes_through_example =
    use_chan-goes_through 2 arriving second_arrived 7 refl refl (omega arith)

-- Execute gives up while its goroutine waits for a message; a foreign one comes.
abbrev giving_up : List Exit.Event
giving_up = Exit.subscribes ∷ Exit.begins ∷ Exit.tests ∷ Exit.publish_fails ∷ []

abbrev abandoned : Exit.PubSub
abandoned = record {
  subscriber = Exit.receiving;
  publisher = Exit.gave_up;
  started = true;
  exit = false;
}

abbrev still_there : List Exit.Event
still_there = Exit.receives (Redis.message (ok ("other", 0))) ∷ Exit.tests ∷ []

pub_sub-listens_example : Exit.IsUp abandoned.subscriber
unfolding Exit.pub_sub run_steps Exit.step Exit.launch
pub_sub-listens_example =
    pub_sub-listens "me" giving_up still_there abandoned abandoned refl refl tt (tt, (tt, tt)) refl
