-- ===== src/Sessions/WebPubSub/Steps.antt =====
-- The steps of Execute of sessions/webpubsub_echo.go beside its reading goroutine: what each comes to at
-- each of its selects.
use mathlib.Core.List.{append_assoc}
use sigbench.Prelude.{
  ◌≡◌, ◌∙◌, refl, sym, ap, String, List, [], ◌∷◌, ◌++◌, Option, none, some, Result, inl, inr, ◌⊎◌,
  minus_one, arith, run_steps-next, run_steps-nil, run_steps_rule,
}
use sigbench.Sessions.Script.{Ending, value, error, crash, blocked, Script, ◌>>◌, try, deferred}
use sigbench.Sessions.Echo.{Field, in_progress, errors}
use sigbench.Sessions.WebPubSub.{
  WebPubSubEvent, OnConnected, OnJoined, OnEcho, wait_connected, wait_joined, echo_round, echo_loop,
}
use sigbench.Sessions.WebPubSub.Reader.{
  Stage, at_connected, at_joined, at_echo, returned, Conversation, finish, go_on, go_round,
  released, Event, reads, takes, times_out, read, take, time_out, step, converse, offer_connected,
  offer_joined, offer_echo, reading, sending, closing, stopped, Reader, Inbound,
}

abbrev pub Body : Type 0
Body = Script Field (Unit {0})

-- Execute is as far in `c` as in `d`.
abbrev pub IsAs : Conversation → Conversation → Type 0
IsAs d c = (c.stage ≡ d.stage) × (c.own ≡ d.own)

pub IsAs-trans : (c d e : Conversation) → IsAs c d → IsAs d e → IsAs c e
IsAs-trans c d e h k = (k.0 ∙ h.0, k.1 ∙ h.1)

pub read-IsAs : (i : Inbound) (r : Reader) (c d : Conversation) → read i r c ≡ some d → IsAs c d
unfolding read
read-IsAs i reading c d h = (cc, cc)
read-IsAs i (sending s) c d h = cc
read-IsAs i closing c d h = cc
read-IsAs i stopped c d h = cc

pub finish-IsAs : (m : Body) (c d : Conversation) → IsAs c d → IsAs (finish m c) (finish m d)
unfolding finish
finish-IsAs m c d h = (refl, ap (λ l. l ++ (m.0 ++ deferred in_progress minus_one m.1)) h.1)

pub bind_assoc : (m k l : Body) → (m >> k) >> l ≡ m >> (k >> l)
bind_assoc (adds, value a) (more, value b) l = ap (λ x. (x, l.1)) (append_assoc adds more l.0)
bind_assoc (adds, value a) (more, error e) l = refl
bind_assoc (adds, value a) (more, crash p) l = refl
bind_assoc (adds, value a) (more, blocked) l = refl
bind_assoc (adds, error e) k l = refl
bind_assoc (adds, crash p) k l = refl
bind_assoc (adds, blocked) k l = refl

-- Execute is past `m`: it is at its next select, or it has returned.
abbrev pub Passed : Stage → Body → Conversation → Conversation → Type 0
Passed next m c x =
    ((x.stage ≡ next)
      × ((k : Body) (t : Conversation) → IsAs (finish k x) t → IsAs (finish (m >> k) c) t))
    ⊎ ((r : Ending (Unit {0})) × (x.stage ≡ returned r)
        × ((k : Body) (t : Conversation) → IsAs x t → IsAs (finish (m >> k) c) t))

pub go_on-Passed : (next : Stage) (m : Body) (c : Conversation) → Passed next m c (go_on next m c)
unfolding go_on finish
go_on-Passed next (adds, value a) c = inl (
  refl,
  λ k t h. (
    h.0,
    h.1
        ∙ append_assoc c.own adds (k.0 ++ deferred in_progress minus_one k.1)
        ∙ ap (λ l. c.own ++ l) (sym (append_assoc adds k.0 (deferred in_progress minus_one k.1))),
  ),
)
go_on-Passed next (adds, error e) c = inr (error e, refl, λ k t h. h)
go_on-Passed next (adds, crash p) c = inr (crash p, refl, λ k t h. h)
go_on-Passed next (adds, blocked) c = inr (blocked, refl, λ k t h. h)

pub stuck : {A : Type 0} {P : Type 0} {d : A} → none ≡ some d → P
stuck h = cc

-- A select that goes on has taken something.
taken :
    {O : Type 0} (f : O → Conversation) (o : Option O) {d : Conversation}
    → (elim o [ none ↦ none | some a ↦ some (f a) ]) ≡ some d
    → (a : O) × (d ≡ f a)
taken f none h = cc
taken f (some a) h = (a, cc)

module _ (format : WebPubSubEvent → String) where
  pub step-returned :
      (r : Ending (Unit {0})) (c d : Conversation) (e : Event)
      → c.stage ≡ returned r
      → step format c e ≡ some d
      → IsAs c d
  unfolding step take time_out
  step-returned r c d (reads i) q h = read-IsAs i c.reader c d h
  step-returned r c d (takes w) q h = stuck (ap (λ s. take format w s c) (sym q) ∙ h)
  step-returned r c d times_out q h = stuck (ap (λ s. time_out format s c) (sym q) ∙ h)

  -- Once Execute has returned, it counts no more.
  pub returned-stays :
      (r : Ending (Unit {0})) (es : List Event) (c t : Conversation)
      → c.stage ≡ returned r
      → converse format c es ≡ some t
      → IsAs c t
  unfolding converse
  returned-stays r es c t q h =
      run_steps_rule (step format) (λ d. IsAs c d)
        (λ a b e p k. IsAs-trans c a b p (step-returned r a b e (p.0 ∙ q) k)) c t es (refl, refl) h

  pub take_connected :
      (w : Result String (Unit {0})) (c d : Conversation)
      → take format w at_connected c ≡ some d
      → (o : OnConnected) × (d
          ≡ go_on at_joined
              (wait_connected o >> try errors w)
              (record c { reader = released c.reader }))
  unfolding take
  take_connected w c d h = taken _ (offer_connected format c.reader) h

  pub take_joined :
      (w : Result String (Unit {0})) (c d : Conversation)
      → take format w at_joined c ≡ some d
      → (o : OnJoined) × (d
          ≡ go_on at_echo (wait_joined o >> try errors w) (record c { reader = released c.reader }))
  unfolding take
  take_joined w c d h = taken _ (offer_joined format c.reader) h

  pub take_echo :
      (w : Result String (Unit {0})) (c d : Conversation)
      → take format w at_echo c ≡ some d
      → (o : OnEcho) × (d ≡ go_round (echo_round o) (record c { reader = released c.reader }))
  unfolding take
  take_echo w c d h = taken _ (offer_echo format c.reader) h

  echo_one : (o : OnEcho) (m : Body) → echo_round o ≡ some m → echo_loop (o ∷ []) ≡ m
  unfolding echo_loop
  echo_one o m h = ground (arith, h)

  rounds :
      (r : Option Body) (c d : Conversation)
      → d ≡ go_round r (record c { reader = released c.reader })
      → IsAs c d ⊎ ((m : Body) × (r ≡ some m) × IsAs (finish m c) d)
  unfolding go_round finish
  rounds none c d h = inl (ap (λ x. x.stage) h, ap (λ x. x.own) h)
  rounds (some m) c d h = inr (m, refl, (ap (λ x. x.stage) h, ap (λ x. x.own) h))

  -- A step of the loop: Execute is where it was, or has returned.
  echo_step :
      (e : Event) (c d : Conversation)
      → c.stage ≡ at_echo
      → step format c e ≡ some d
      → IsAs c d ⊎ ((l : List OnEcho) × IsAs (finish (echo_loop l) c) d)
  unfolding step time_out
  echo_step (reads i) c d q h = inl (read-IsAs i c.reader c d h)
  echo_step (takes w) c d q h =
      let (o, p) = take_echo w c d (ap (λ s. take format w s c) (sym q) ∙ h) in
      elim (rounds (echo_round o) c d p) [
        | inl same ↦ inl same
        | inr (m, n, ends) ↦ inr (o ∷ [], rw (echo_one o m n) ends)
      ]
  echo_step times_out c d q h =
      let p : some (finish (echo_loop []) c) ≡ some d = ap (λ s. time_out format s c) (sym q) ∙ h in
      inr ([], (cc, cc))

  -- From the loop on, Execute does what the loop does for some list of what its select takes.
  pub echo_ends :
      (es : List Event) (c t : Conversation) (r : Ending (Unit {0}))
      → c.stage ≡ at_echo
      → converse format c es ≡ some t
      → t.stage ≡ returned r
      → (l : List OnEcho) × IsAs (finish (echo_loop l) c) t
  unfolding converse finish
  echo_ends [] c t r q h k = let same : c ≡ t = run_steps-nil (step format) c t h in cc
  echo_ends (e ∷ es) c t r q h k =
      let (d, next, rest) = run_steps-next (step format) c t e es h in
      elim (echo_step e c d q next) [
        | inl same ↦
            let (l, ends) = echo_ends es d t r (same.0 ∙ q) rest k in
            (
              l,
              IsAs-trans (finish (echo_loop l) c) (finish (echo_loop l) d) t
                  (finish-IsAs (echo_loop l) c d same) ends,
            )
        | inr (l, ends) ↦ (
          l,
          IsAs-trans (finish (echo_loop l) c) d t ends
              (returned-stays (echo_loop l).1 es d t ends.0 rest),
        )
      ]
