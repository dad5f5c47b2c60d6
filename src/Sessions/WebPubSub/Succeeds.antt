-- ===== src/Sessions/WebPubSub/Succeeds.antt =====
-- The run of Execute and its reading goroutine in sessions/webpubsub_echo.go that the service's protocol
-- gives: "connected", the ack of joining, the ack of sending, and the message.
use sigbench.Prelude.{
  ◌≡◌, ◌∙◌, refl, String, List, [], ◌∷◌, ◌++◌, some, ok, ap, run_steps, run_steps-cons, All, ℕ,
  minus_one,
}
use sigbench.Sessions.Script.{value}
use sigbench.Sessions.Echo.{Field, in_progress, success}
use sigbench.Sessions.WebPubSub.{
  WebPubSubEvent, Signal, classify, connected, acked, message, echo_round,
}
use sigbench.Sessions.WebPubSub.Reader.{
  event, Stage, at_connected, at_joined, at_echo, returned, Conversation, start, Event, reads,
  takes, step, converse, reading, sending, take, read,
}

-- Each message is read and taken before the next; every write succeeds.
abbrev pub delivered : List WebPubSubEvent → List Event
delivered [] = []
delivered (ev ∷ evs) = reads (event ev) ∷ takes (ok tt) ∷ delivered evs

abbrev at : Stage → List (Field × ℕ) → Conversation
at p own = record { reader = reading; stage = p; own = own; by_reader = [] }

-- What Execute counts if it succeeds.
abbrev pub succeeded : Conversation
succeeded =
    at (returned (value tt)) ((in_progress, 1) ∷ (success, 1) ∷ (in_progress, minus_one) ∷ [])

module _ (format : WebPubSubEvent → String) where
  -- A message that is read and taken.
  delivers :
      (p : Stage) (own : List (Field × ℕ)) (ev : WebPubSubEvent) (x : Signal) (es : List Event)
      (d : Conversation)
      → classify ev ≡ x
      → take format (ok tt) p (record (at p own) { reader = sending x }) ≡ some d
      → converse format (at p own) (reads (event ev) ∷ takes (ok tt) ∷ es) ≡ converse format d es
  unfolding converse step read
  delivers p own ev x es d h k =
      run_steps-cons (step format) (at p own) (record (at p own) { reader = sending x })
        (reads (event ev)) (takes (ok tt) ∷ es)
        (ap (λ y. some (record (at p own) { reader = sending y })) h)
      ∙ run_steps-cons (step format) (record (at p own) { reader = sending x }) d (takes (ok tt)) es
          k

  connects :
      (ev : WebPubSubEvent) (es : List Event)
      → classify ev ≡ connected
      → converse format start (reads (event ev) ∷ takes (ok tt) ∷ es)
        ≡ converse format (at at_joined ((in_progress, 1) ∷ [])) es
  unfolding start take
  connects ev es h =
      delivers at_connected ((in_progress, 1) ∷ []) ev connected es
        (at at_joined ((in_progress, 1) ∷ [])) h refl

  joins :
      (ev : WebPubSubEvent) (es : List Event)
      → classify ev ≡ acked 1
      → converse format
          (at at_joined ((in_progress, 1) ∷ []))
          (reads (event ev) ∷ takes (ok tt) ∷ es)
        ≡ converse format (at at_echo ((in_progress, 1) ∷ [])) es
  unfolding take
  joins ev es h =
      delivers at_joined ((in_progress, 1) ∷ []) ev (acked 1) es
        (at at_echo ((in_progress, 1) ∷ [])) h refl

  echoes :
      (acks : List WebPubSubEvent) (msg : WebPubSubEvent)
      → All (λ ev. classify ev ≡ acked 2) acks
      → classify msg ≡ message "foobar"
      → converse format (at at_echo ((in_progress, 1) ∷ [])) (delivered (acks ++ msg ∷ []))
        ≡ some succeeded
  unfolding take echo_round
  echoes [] msg h k =
      delivers at_echo ((in_progress, 1) ∷ []) msg (message "foobar") [] succeeded k refl
      ∙ unfold converse run_steps in refl
  echoes (ev ∷ acks) msg h k =
      delivers at_echo ((in_progress, 1) ∷ []) ev (acked 2) (delivered (acks ++ msg ∷ []))
        (at at_echo ((in_progress, 1) ∷ [])) (h.0) refl
      ∙ echoes acks msg h.1 k

  -- If the service answers in the protocol's order, with "connected", the ack 1, any number of acks 2
  -- and the message "foobar" of the group, and the select takes each before the next is read, then the
  -- run goes through to its end: Execute returns nil with one success counted and no error.
  pub converse-succeeds :
      (conn join : WebPubSubEvent) (acks : List WebPubSubEvent) (msg : WebPubSubEvent)
      → classify conn ≡ connected
      → classify join ≡ acked 1
      → All (λ ev. classify ev ≡ acked 2) acks
      → classify msg ≡ message "foobar"
      → converse format start (delivered (conn ∷ join ∷ (acks ++ msg ∷ []))) ≡ some succeeded
  converse-succeeds conn join acks msg c j a m =
      connects conn (delivered (join ∷ (acks ++ msg ∷ []))) c
      ∙ joins join (delivered (acks ++ msg ∷ [])) j
      ∙ echoes acks msg a m
