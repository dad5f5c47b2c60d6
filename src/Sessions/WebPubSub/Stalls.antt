-- ===== src/Sessions/WebPubSub/Stalls.antt =====
-- An event that comes while Execute of sessions/webpubsub_echo.go waits in a select without a case for
-- it: the channels have no buffer, so it holds up the goroutine that reads, and all behind it.
use sigbench.Prelude.{◌≡◌, ◌∙◌, ◌⊎◌, ap, sym, inl, inr, String, List, some, Result, run_steps_rule}
use sigbench.Sessions.Script.{Ending, error}
use sigbench.Sessions.WebPubSub.{WebPubSubEvent, Signal, connected, acked, message, unexpected}
use sigbench.Sessions.WebPubSub.Reader.{
  Stage, at_connected, at_joined, at_echo, returned, Conversation, Event, reads, takes, times_out,
  read, take, time_out, step, converse, sending, Reader,
}
use sigbench.Sessions.WebPubSub.Steps.{stuck}
use sigbench.Sessions.WebPubSub.Sends.{time_out-reader, no_read}

-- The select has no case for the event.
abbrev pub HasNoCase : Stage → Signal → Type 0
HasNoCase at_connected (acked id) = Unit {0}
HasNoCase at_connected (message text) = Unit {0}
HasNoCase at_joined connected = Unit {0}
HasNoCase at_joined (message text) = Unit {0}
HasNoCase at_echo connected = Unit {0}
HasNoCase _ _ = ⊥

-- How the call returns when the select's timer fires.
abbrev pub timed_out : Stage → Ending (Unit {0})
timed_out at_connected = error "On connected timeout"
timed_out at_joined = error "Join group ack timeout"
timed_out at_echo = error "Echo timeout"
timed_out (returned r) = r

module _ (format : WebPubSubEvent → String) where
  no_take :
      (p : Stage) (x : Signal) (w : Result String (Unit {0})) (c d : Conversation)
      → HasNoCase p x
      → take format w p (record c { reader = sending x }) ≡ some d
      → ⊥
  unfolding take
  no_take at_connected connected w c d n h = n
  no_take at_connected (acked id) w c d n h = stuck h
  no_take at_connected (message text) w c d n h = stuck h
  no_take at_connected (unexpected ev) w c d n h = n
  no_take at_joined connected w c d n h = stuck h
  no_take at_joined (acked id) w c d n h = n
  no_take at_joined (message text) w c d n h = stuck h
  no_take at_joined (unexpected ev) w c d n h = n
  no_take at_echo connected w c d n h = stuck h
  no_take at_echo (acked id) w c d n h = n
  no_take at_echo (message text) w c d n h = n
  no_take at_echo (unexpected ev) w c d n h = n
  no_take (returned r) x w c d n h = n

  times_out_at :
      (p : Stage) (c d : Conversation)
      → time_out format p c ≡ some d
      → d.stage ≡ returned (timed_out p)
  unfolding time_out
  times_out_at at_connected c d h = cc
  times_out_at at_joined c d h = cc
  times_out_at at_echo c d h = cc
  times_out_at (returned r) c d h = stuck h

  -- Execute is still in its select, or its timer has fired.
  record Stalled (p : Stage) (x : Signal) (c : Conversation) : Type 0 where
    held : c.reader ≡ sending x
    there : (c.stage ≡ p) ⊎ (c.stage ≡ returned (timed_out p))

  step-Stalled :
      (p : Stage) (x : Signal)
      → HasNoCase p x
      → (c d : Conversation) (e : Event) → Stalled p x c
      → step format c e ≡ some d
      → Stalled p x d
  unfolding step take time_out
  step-Stalled p x n c d (reads i) s h =
      absurd (no_read i (sending x) c d tt (ap (λ r. read i r c) (sym s.held) ∙ h))
  step-Stalled p x n c d (takes w) s h = elim s.there [
    | inl at ↦ absurd (
        no_take p x w c d n (
          ap (λ (y : Reader × Stage). take format w y.1 (record c { reader = y.0 }))
            (λ i. (sym s.held i, sym at i))
          ∙ h))
    | inr gone ↦ stuck (ap (λ y. take format w y c) (sym gone) ∙ h)
  ]
  step-Stalled p x n c d times_out s h = record {
    held = sym (time_out-reader format c.stage c d h).0 ∙ s.held;
    there = elim s.there [
      | inl at ↦ inr (times_out_at c.stage c d h ∙ ap (λ y. returned (timed_out y)) at)
      | inr gone ↦ stuck (ap (λ y. time_out format y c) (sym gone) ∙ h)
    ];
  }

  -- From any state of Execute and its reading goroutine: if the goroutine has an event to send for which
  -- the select that Execute waits in has no case (a message or a second "connected" before the ack of
  -- joining, say), then whatever follows, Execute can only return with the timeout of that select, and
  -- the goroutine still holds the event.
  pub stray-times_out :
      (fs : List Event) (s t : Conversation) (p : Stage) (x : Signal) (r : Ending (Unit {0}))
      → s.stage ≡ p
      → s.reader ≡ sending x
      → HasNoCase p x
      → converse format s fs ≡ some t
      → t.stage ≡ returned r
      → (r ≡ timed_out p) × (t.reader ≡ sending x)
  unfolding converse
  stray-times_out fs s t p x r at holds n more q =
      let v =
        run_steps_rule (step format) (Stalled p x) (step-Stalled p x n) s t fs
          (record { held = holds; there = inl at }) more in
      (
        elim v.there [
          | inl still ↦ no_return p x n (sym still ∙ q)
          | inr gone ↦ ends (sym q ∙ gone)
        ],
        v.held,
      )
    where
      no_return : (p : Stage) (x : Signal) → HasNoCase p x → p ≡ returned r → r ≡ timed_out p
      no_return at_connected x n e = cc
      no_return at_joined x n e = cc
      no_return at_echo x n e = cc
      no_return (returned u) x n e = absurd n

      ends : {u : Ending (Unit {0})} → returned r ≡ returned u → r ≡ u
      ends e = cc
