-- ===== src/Sessions/WebPubSub/Reports.antt =====
-- What the reading goroutine of sessions/webpubsub_echo.go counts, beside what Execute does.
use mathlib.Core.Path.{subst}
use sigbench.Prelude.{
  ◌≡◌, ◌⊎◌, ap, sym, refl, inl, inr, String, ℕ, List, [], ◌∷◌, ◌++◌, some, Result, true, false,
  run_steps_rule,
}
use sigbench.Sessions.Script.{Ending}
use sigbench.Sessions.Echo.{Field, errors, Settles}
use sigbench.Sessions.WebPubSub.{WebPubSubEvent, execute-Settles}
use sigbench.Sessions.WebPubSub.Reader.{
  Inbound, read_failed, undecodable, event, returned, Conversation, start, released, Event, reads,
  takes, times_out, read, take, time_out, step, converse, reading, sending, closing, stopped,
  Reader, receive,
}
use sigbench.Sessions.WebPubSub.Refines.{converse-execute}
use sigbench.Sessions.WebPubSub.Steps.{stuck}
use sigbench.Sessions.WebPubSub.Sends.{take-reader, time_out-reader}

-- The reader counts one error at most, behind which it only ends.
abbrev pub Reported : Reader → List (Field × ℕ) → Type 0
Reported reading l = l ≡ []
Reported (sending s) l = l ≡ []
Reported closing l = (l ≡ []) ⊎ (l ≡ (errors, 1) ∷ [])
Reported stopped l = (l ≡ []) ⊎ (l ≡ (errors, 1) ∷ [])

released-Reported : (r : Reader) (l : List (Field × ℕ)) → Reported r l → Reported (released r) l
unfolding released
released-Reported reading l h = h
released-Reported (sending s) l h = h
released-Reported closing l h = h
released-Reported stopped l h = h

receive-Reported :
    (i : Inbound) (l : List (Field × ℕ)) → l ≡ [] → Reported (receive i).1 (l ++ (receive i).0)
unfolding receive
receive-Reported (read_failed true) l h = inr (ap (λ x. x ++ (errors, 1) ∷ []) h)
receive-Reported (read_failed false) l h = inl (ap (λ x. x ++ []) h)
receive-Reported undecodable l h = inr (ap (λ x. x ++ (errors, 1) ∷ []) h)
receive-Reported (event ev) l h = ap (λ x. x ++ []) h

read-Reported :
    (i : Inbound) (r : Reader) (c d : Conversation)
    → Reported r c.by_reader
    → read i r c ≡ some d
    → Reported d.reader d.by_reader
unfolding read
read-Reported i reading c d p h =
    subst (λ (x : Conversation). Reported x.reader x.by_reader)
      {x = record c { reader = (receive i).1; by_reader = c.by_reader ++ (receive i).0 }} {y = d}
      (cc) (receive-Reported i c.by_reader p)
read-Reported i (sending s) c d p h = stuck h
read-Reported i closing c d p h = stuck h
read-Reported i stopped c d p h = stuck h

module _ (format : WebPubSubEvent → String) where
  take-Reported :
      (w : Result String (Unit {0})) (c d : Conversation)
      → Reported c.reader c.by_reader
      → take format w c.stage c ≡ some d
      → Reported d.reader d.by_reader
  take-Reported w c d p h =
      let same = take-reader format w c.stage c d h in
      subst (λ x. Reported x d.by_reader) (sym same.0)
        (subst (Reported (released c.reader)) (sym same.1)
          (released-Reported c.reader c.by_reader p))

  time_out-Reported :
      (c d : Conversation)
      → Reported c.reader c.by_reader
      → time_out format c.stage c ≡ some d
      → Reported d.reader d.by_reader
  time_out-Reported c d p h =
      let same = time_out-reader format c.stage c d h in
      subst (λ x. Reported x d.by_reader) same.0 (subst (Reported c.reader) same.1 p)

  step-Reported :
      (c d : Conversation) (e : Event)
      → Reported c.reader c.by_reader
      → step format c e ≡ some d
      → Reported d.reader d.by_reader
  unfolding step
  step-Reported c d (reads i) p h = read-Reported i c.reader c d p h
  step-Reported c d (takes w) p h = take-Reported w c d p h
  step-Reported c d times_out p h = time_out-Reported c d p h

  pub converse-Reported :
      (es : List Event) (t : Conversation)
      → converse format start es ≡ some t
      → Reported t.reader t.by_reader
  unfolding converse start
  converse-Reported es t h =
      run_steps_rule (step format) (λ c. Reported c.reader c.by_reader) step-Reported start t es
        refl h

  pub one_report :
      (r : Reader) (l : List (Field × ℕ)) → Reported r l → (l ≡ []) ⊎ (l ≡ (errors, 1) ∷ [])
  one_report reading l h = inl h
  one_report (sending s) l h = inl h
  one_report closing l h = h
  one_report stopped l h = h

  pub run-Settles :
      (es : List Event) (t : Conversation) (r : Ending (Unit {0}))
      → converse format start es ≡ some t
      → t.stage ≡ returned r
      → Settles t.own r
  run-Settles es t r h k =
      let (env, dials, same) = converse-execute format es t r h k in
      subst (λ x. Settles x.0 x.1) same (execute-Settles env)

  -- Over every run of Execute and its reading goroutine in which Execute returns: Execute takes back what
  -- it adds to cntInProgress, and counts one success and no error if it returns nil, one error and no
  -- success if it returns an error; the goroutine counts one error at most, and nothing else.
  pub converse-Settles :
      (es : List Event) (t : Conversation) (r : Ending (Unit {0}))
      → converse format start es ≡ some t
      → t.stage ≡ returned r
      → Settles t.own r × ((t.by_reader ≡ []) ⊎ (t.by_reader ≡ (errors, 1) ∷ []))
  converse-Settles es t r h k =
      (run-Settles es t r h k, one_report t.reader t.by_reader (converse-Reported es t h))
