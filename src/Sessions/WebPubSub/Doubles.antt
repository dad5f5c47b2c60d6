-- ===== src/Sessions/WebPubSub/Doubles.antt =====
-- What Execute of sessions/webpubsub_echo.go and its reading goroutine count together: both count an
-- error of the connection.
use mathlib.Core.Path.{subst}
use sigbench.Prelude.{
  ◌≡◌, ◌≢◌, ◌∙◌, ◌⊎◌, ◌+◌, ap, sym, refl, inl, inr, String, ℕ, List, [], ◌∷◌, ◌++◌, some, Result,
  run_steps_rule, run_steps-append, sum_of, arith,
}
use sigbench.Sessions.Script.{Ending, value, error, crash, blocked}
use sigbench.Sessions.Echo.{Field, errors, Settles, to_errors}
use sigbench.Sessions.WebPubSub.{WebPubSubEvent, echo_round}
use sigbench.Sessions.WebPubSub.Reader.{
  Inbound, Stage, at_connected, at_joined, at_echo, returned, Conversation, start, released, Event,
  reads, takes, times_out, read, take, time_out, step, converse, reading, sending, closing, stopped,
  Reader,
}
use sigbench.Sessions.WebPubSub.Steps.{stuck}
use sigbench.Sessions.WebPubSub.Sends.{take-reader, time_out-reader}
use sigbench.Sessions.WebPubSub.Reports.{Reported, converse-Reported, one_report, run-Settles}

-- The reader is behind its last message.
abbrev IsOver : Reader → Type 0
IsOver closing = Unit {0}
IsOver stopped = Unit {0}
IsOver _ = ⊥

abbrev IsNotNil : Stage → Type 0
IsNotNil (returned (value _)) = ⊥
IsNotNil _ = Unit {0}

-- Execute is in a select.
abbrev pub IsWaiting : Stage → Type 0
IsWaiting (returned _) = ⊥
IsWaiting _ = Unit {0}

waiting-IsNotNil : (p : Stage) → IsWaiting p → IsNotNil p
waiting-IsNotNil at_connected h = tt
waiting-IsNotNil at_joined h = tt
waiting-IsNotNil at_echo h = tt
waiting-IsNotNil (returned r) h = absurd h

Reported-IsOver : (r : Reader) (l : List (Field × ℕ)) → Reported r l → l ≢ [] → IsOver r
Reported-IsOver reading l h k = absurd (k h)
Reported-IsOver (sending s) l h k = absurd (k h)
Reported-IsOver closing l h k = tt
Reported-IsOver stopped l h k = tt

no_read_behind :
    (i : Inbound) (r : Reader) (c d : Conversation) → IsOver r → read i r c ≡ some d → ⊥
unfolding read
no_read_behind i reading c d o h = o
no_read_behind i (sending s) c d o h = o
no_read_behind i closing c d o h = stuck h
no_read_behind i stopped c d o h = stuck h

released-IsOver : (r : Reader) → IsOver r → IsOver (released r)
unfolding released
released-IsOver reading o = absurd o
released-IsOver (sending s) o = absurd o
released-IsOver closing o = tt
released-IsOver stopped o = tt

module _ (format : WebPubSubEvent → String) where
  take-IsNotNil :
      (r : Reader) (w : Result String (Unit {0})) (p : Stage) (c d : Conversation)
      → IsOver r
      → take format w p (record c { reader = r }) ≡ some d
      → IsNotNil d.stage
  unfolding take echo_round
  take-IsNotNil closing w at_connected c d o h =
      subst IsNotNil {x = returned (error "Unexpected close")} (cc) tt
  take-IsNotNil closing w at_joined c d o h =
      subst IsNotNil {x = returned (error "Unexpected close")} (cc) tt
  take-IsNotNil closing w at_echo c d o h =
      subst IsNotNil {x = returned (error "Unexpected close")} (cc) tt
  take-IsNotNil stopped w at_connected c d o h = stuck h
  take-IsNotNil stopped w at_joined c d o h = stuck h
  take-IsNotNil stopped w at_echo c d o h = stuck h
  take-IsNotNil r w (returned e) c d o h = stuck h
  take-IsNotNil reading w p c d o h = absurd o
  take-IsNotNil (sending s) w p c d o h = absurd o

  time_out-IsNotNil :
      (p : Stage) (c d : Conversation) → time_out format p c ≡ some d → IsNotNil d.stage
  unfolding time_out
  time_out-IsNotNil at_connected c d h =
      subst IsNotNil {x = returned (error "On connected timeout")} (cc) tt
  time_out-IsNotNil at_joined c d h =
      subst IsNotNil {x = returned (error "Join group ack timeout")} (cc) tt
  time_out-IsNotNil at_echo c d h = subst IsNotNil {x = returned (error "Echo timeout")} (cc) tt
  time_out-IsNotNil (returned r) c d h = stuck h

  -- The reader has counted an error, and Execute will not return nil.
  record Owes (c : Conversation) : Type 0 where
    once : c.by_reader ≡ (errors, 1) ∷ []
    over : IsOver c.reader
    not_nil : IsNotNil c.stage

  step-Owes : (c d : Conversation) (e : Event) → Owes c → step format c e ≡ some d → Owes d
  unfolding step
  step-Owes c d (reads i) o h = absurd (no_read_behind i c.reader c d o.over h)
  step-Owes c d (takes w) o h =
      let same = take-reader format w c.stage c d h in
      record {
        once = same.1 ∙ o.once;
        over = subst IsOver (sym same.0) (released-IsOver c.reader o.over);
        not_nil = take-IsNotNil c.reader w c.stage c d o.over h;
      }
  step-Owes c d times_out o h =
      let same = time_out-reader format c.stage c d h in
      record {
        once = sym same.1 ∙ o.once;
        over = subst IsOver same.0 o.over;
        not_nil = time_out-IsNotNil c.stage c d h;
      }

  -- Execute's own error, beside the reader's.
  twice_counted :
      (own by_reader : List (Field × ℕ)) (p : Stage) (r : Ending (Unit {0}))
      → by_reader ≡ (errors, 1) ∷ []
      → IsNotNil p
      → p ≡ returned r
      → Settles own r
      → ((e : String) × (r ≡ error e)) × (sum_of to_errors own + sum_of to_errors by_reader ≡ 2)
  twice_counted own l p (value tt) b n q s = absurd (subst IsNotNil q n)
  twice_counted own l p (error e) b n q s = ((e, refl), omega (arith, s.1, ap (sum_of to_errors) b))
  twice_counted own l p (crash e) b n q s = absurd s
  twice_counted own l p blocked b n q s = absurd s

  -- Over every run of Execute and its reading goroutine: if the goroutine has counted an error while
  -- Execute still waits in one of its selects, then Execute, once it has returned, has returned an
  -- error, and the one call has counted two errors.
  pub error_counts_twice :
      (es fs : List Event) (s t : Conversation) (r : Ending (Unit {0}))
      → converse format start es ≡ some s
      → s.by_reader ≢ []
      → IsWaiting s.stage
      → converse format s fs ≡ some t
      → t.stage ≡ returned r
      → ((e : String) × (r ≡ error e)) × (sum_of to_errors t.own + sum_of to_errors t.by_reader ≡ 2)
  unfolding converse
  error_counts_twice es fs s t r h reported waiting more q =
      let p = converse-Reported format es s h in
      let owed =
        run_steps_rule (step format) Owes step-Owes s t fs
          (record {
            once = one_of (one_report format s.reader s.by_reader p) reported;
            over = Reported-IsOver s.reader s.by_reader p reported;
            not_nil = waiting-IsNotNil s.stage waiting;
          })
          more in
      twice_counted t.own t.by_reader t.stage r owed.once owed.not_nil q (
        run-Settles format (es ++ fs) t r (run_steps-append (step format) start s es fs h ∙ more) q)
    where
      one_of : {A : Type 0} {l m : List A} → (l ≡ []) ⊎ (l ≡ m) → l ≢ [] → l ≡ m
      one_of (inl e) n = absurd (n e)
      one_of (inr e) n = e
