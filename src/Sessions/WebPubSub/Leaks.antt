-- ===== src/Sessions/WebPubSub/Leaks.antt =====
-- The end of the goroutine that reads in Execute of sessions/webpubsub_echo.go: Execute leaves its selects
-- when it returns, and the channels have no buffer.
use mathlib.Core.Path.{subst}
use sigbench.Prelude.{
  ◌≡◌, ◌≢◌, ◌∙◌, ◌⊎◌, ◌≤◌, ap, sym, refl, inl, inr, String, List, [], ◌∷◌, some, Result,
  run_steps-next, run_steps-nil, All, length, arith,
}
use sigbench.Sessions.Script.{Ending, value, error}
use sigbench.Sessions.WebPubSub.{WebPubSubEvent, classify, echo_round}
use sigbench.Sessions.WebPubSub.Reader.{
  Inbound, read_failed, undecodable, event, Stage, at_connected, at_joined, at_echo, returned,
  Conversation, start, Event, reads, takes, times_out, read, take, time_out, step, converse,
  reading, sending, closing, stopped, Reader,
}
use sigbench.Sessions.WebPubSub.Steps.{returned-stays, step-returned, stuck}
use sigbench.Sessions.WebPubSub.Sends.{IsInSend, no_read, take-reader, time_out-reader}

-- The event is no message that json.Unmarshal refuses.
abbrev pub IsDecoded : Event → Type 0
IsDecoded (reads undecodable) = ⊥
IsDecoded _ = Unit {0}

-- The reader has stopped only if Execute has failed with "Unexpected close".
abbrev Ended : Reader → Stage → Type 0
Ended stopped p = p ≡ returned (error "Unexpected close")
Ended _ p = Unit {0}

read-IsInSend :
    (i : Inbound) (x : Reader) (c d : Conversation)
    → IsDecoded (reads i)
    → read i x c ≡ some d
    → IsInSend d.reader
unfolding read
read-IsInSend (read_failed u) reading c d b h = subst IsInSend {x = closing} (cc) tt
read-IsInSend undecodable reading c d b h = absurd b
read-IsInSend (event ev) reading c d b h = subst IsInSend {x = sending (classify ev)} (cc) tt
read-IsInSend i (sending s) c d b h = stuck h
read-IsInSend i closing c d b h = stuck h
read-IsInSend i stopped c d b h = stuck h

nil_not_stopped : (x : Reader) (p : Stage) → Ended x p → p ≡ returned (value tt) → x ≢ stopped
nil_not_stopped x p h q same =
    let e : p ≡ returned (error "Unexpected close") = subst (λ r. Ended r p) same h in cc

module _ (format : WebPubSubEvent → String) where
  take_at :
      (r : Reader) (w : Result String (Unit {0})) (p : Stage) (c d : Conversation)
      → take format w p (record c { reader = r }) ≡ some d
      → Ended d.reader d.stage
  unfolding take echo_round
  take_at reading w at_connected c d h = stuck h
  take_at reading w at_joined c d h = stuck h
  take_at reading w at_echo c d h = stuck h
  take_at (sending s) w p c d h =
      subst (λ r. Ended r d.stage)
        (sym (take-reader format w p (record c { reader = sending s }) d h).0) tt
  take_at closing w at_connected c d h =
      subst (λ r. Ended r d.stage)
        (sym (take-reader format w at_connected (record c { reader = closing }) d h).0) cc
  take_at closing w at_joined c d h =
      subst (λ r. Ended r d.stage)
        (sym (take-reader format w at_joined (record c { reader = closing }) d h).0) cc
  take_at closing w at_echo c d h =
      subst (λ r. Ended r d.stage)
        (sym (take-reader format w at_echo (record c { reader = closing }) d h).0) cc
  take_at stopped w at_connected c d h = stuck h
  take_at stopped w at_joined c d h = stuck h
  take_at stopped w at_echo c d h = stuck h
  take_at r w (returned e) c d h = stuck h

  read-Ended :
      (i : Inbound) (r : Reader) (c d : Conversation)
      → IsDecoded (reads i)
      → read i r c ≡ some d
      → Ended d.reader d.stage
  unfolding read
  read-Ended (read_failed u) reading c d i h = subst (λ r. Ended r d.stage) {x = closing} (cc) tt
  read-Ended undecodable reading c d i h = absurd i
  read-Ended (event ev) reading c d i h =
      subst (λ r. Ended r d.stage) {x = sending (classify ev)} (cc) tt
  read-Ended m (sending s) c d i h = stuck h
  read-Ended m closing c d i h = stuck h
  read-Ended m stopped c d i h = stuck h

  time_out-Ended :
      (r : Reader) (p : Stage) (c d : Conversation)
      → Ended r p
      → time_out format p (record c { reader = r }) ≡ some d
      → Ended d.reader d.stage
  unfolding time_out
  time_out-Ended stopped at_connected c d q h = cc
  time_out-Ended stopped at_joined c d q h = cc
  time_out-Ended stopped at_echo c d q h = cc
  time_out-Ended r (returned e) c d q h = stuck h
  time_out-Ended reading p c d q h =
      subst (λ r. Ended r d.stage)
        ((time_out-reader format p (record c { reader = reading }) d h).0) tt
  time_out-Ended (sending s) p c d q h =
      subst (λ r. Ended r d.stage)
        ((time_out-reader format p (record c { reader = sending s }) d h).0) tt
  time_out-Ended closing p c d q h =
      subst (λ r. Ended r d.stage)
        ((time_out-reader format p (record c { reader = closing }) d h).0) tt

  step-Ended :
      (e : Event) (c d : Conversation)
      → IsDecoded e
      → Ended c.reader c.stage
      → step format c e ≡ some d
      → Ended d.reader d.stage
  unfolding step
  step-Ended (reads i) c d ok p h = read-Ended i c.reader c d ok h
  step-Ended (takes w) c d ok p h = take_at c.reader w c.stage c d h
  step-Ended times_out c d ok p h = time_out-Ended c.reader c.stage c d p h

  converse-Ended :
      (es : List Event) (c t : Conversation)
      → All IsDecoded es
      → Ended c.reader c.stage
      → converse format c es ≡ some t
      → Ended t.reader t.stage
  unfolding converse
  converse-Ended [] c t ok p h =
      subst (λ x. Ended x.reader x.stage) (run_steps-nil (step format) c t h) p
  converse-Ended (e ∷ es) c t ok p h =
      let (d, next, rest) = run_steps-next (step format) c t e es h in
      converse-Ended es d t ok.1 (step-Ended e c d ok.0 p next) rest

  -- A reader in a send that Execute no longer waits for has no step, nor has Execute.
  sends_for_ever :
      (e : Event) (r : Ending (Unit {0})) (c d : Conversation)
      → c.stage ≡ returned r
      → IsInSend c.reader
      → step format c e ≡ some d
      → ⊥
  unfolding step take time_out
  sends_for_ever (reads i) r c d q b h = no_read i c.reader c d b h
  sends_for_ever (takes w) r c d q b h = stuck (ap (λ s. take format w s c) (sym q) ∙ h)
  sends_for_ever times_out r c d q b h = stuck (ap (λ s. time_out format s c) (sym q) ∙ h)

  last_send :
      (e : Event) (r : Ending (Unit {0})) (c d : Conversation)
      → c.stage ≡ returned r
      → IsDecoded e
      → step format c e ≡ some d
      → IsInSend d.reader
  unfolding step take time_out
  last_send (reads i) r c d q b h = read-IsInSend i c.reader c d b h
  last_send (takes w) r c d q b h = stuck (ap (λ s. take format w s c) (sym q) ∙ h)
  last_send times_out r c d q b h = stuck (ap (λ s. time_out format s c) (sym q) ∙ h)

  -- Behind its return, at most one more message is read, and then the reader hangs in a send.
  last_step :
      (fs : List Event) (r : Ending (Unit {0})) (s t : Conversation)
      → s.stage ≡ returned r
      → All IsDecoded fs
      → converse format s fs ≡ some t
      → (length fs ≤ 1) × ((fs ≡ []) ⊎ IsInSend t.reader)
  unfolding converse
  last_step [] r s t q ok h = (omega arith, inl refl)
  last_step (e ∷ []) r s t q ok h =
      let (d, next, rest) = run_steps-next (step format) s t e [] h in
      (
        omega arith,
        inr (
            subst (λ x. IsInSend x.reader) (run_steps-nil (step format) d t rest)
              (last_send e r s d q ok.0 next)),
      )
  last_step (e ∷ f ∷ fs) r s t q ok h =
      let (d, next, rest) = run_steps-next (step format) s t e (f ∷ fs) h in
      let (x, more, others) = run_steps-next (step format) d t f fs rest in
      absurd (
        sends_for_ever f r d x ((step-returned format r s d e q next).0 ∙ q)
          (last_send e r s d q ok.0 next) more)

  -- Over every run in which Execute has returned nil and in which no message fails to decode, before or
  -- afterwards: the goroutine that reads never reaches its end. After the return at most one step
  -- follows, a read, and behind it the goroutine waits in a send for ever.
  pub success-leaks :
      (es fs : List Event) (s t : Conversation)
      → converse format start es ≡ some s
      → All IsDecoded es
      → s.stage ≡ returned (value tt)
      → converse format s fs ≡ some t
      → All IsDecoded fs
      → (t.reader ≢ stopped) × (length fs ≤ 1) × ((fs ≡ []) ⊎ IsInSend t.reader)
  success-leaks es fs s t h ok q k more =
      let last = last_step fs (value tt) s t q more k in
      (
        nil_not_stopped t.reader t.stage
            (converse-Ended fs s t more (converse-Ended es start s ok start-Ended h) k)
            ((returned-stays format (value tt) fs s t q k).0 ∙ q),
        last.0,
        last.1,
      )
    where
      start-Ended : Ended start.reader start.stage
      start-Ended = unfold start in tt
