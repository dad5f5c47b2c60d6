-- ===== src/Sessions/WebPubSub/Refines.antt =====
-- Execute of sessions/webpubsub_echo.go beside its reading goroutine: what it does is what the model of
-- Execute alone does for some answers of the selects.
use mathlib.Core.Path.{subst}
use sigbench.Prelude.{
  ◌≡◌, ◌∙◌, refl, sym, ap, String, List, [], ◌∷◌, some, Result, ok, inl, inr, ◌⊎◌, run_steps-next,
  run_steps-nil,
}
use sigbench.Sessions.Script.{Ending, error, ◌>>◌, try}
use sigbench.Sessions.Echo.{errors, tracked}
use sigbench.Sessions.WebPubSub.{
  WebPubSubEvent, OnConnected, OnJoined, OnEcho, wait_connected, wait_joined, echo_loop, Env,
  execute, execute_body,
}
use sigbench.Sessions.WebPubSub.Reader.{
  Stage, at_connected, at_joined, at_echo, returned, Conversation, start, finish, released, Event,
  reads, takes, times_out, take, time_out, step, converse,
}
use sigbench.Sessions.WebPubSub.Steps.{
  echo_ends, IsAs, IsAs-trans, read-IsAs, finish-IsAs, bind_assoc, Passed, go_on-Passed,
  take_connected, take_joined, returned-stays, Body,
}

-- What the environment answers behind the first select.
record Answers : Type 0 where
  joins : OnJoined
  writes : Result String (Unit {0})
  echoes : List OnEcho

abbrev behind : Answers → Body
behind a = (wait_joined a.joins >> try errors a.writes) >> echo_loop a.echoes

module _ (format : WebPubSubEvent → String) where
  -- Behind `m`, Execute does what it does from the next stage on, or has returned.
  Passed-ends :
      {X : Type 0} (k : X → Body) (unused : X) (next : Stage) (m : Body) (es : List Event)
      (c d t : Conversation)
      → Passed next m c d
      → (d.stage ≡ next → (x : X) × IsAs (finish (k x) d) t)
      → converse format d es ≡ some t
      → (x : X) × IsAs (finish (m >> k x) c) t
  Passed-ends k unused next m es c d t (inl (q, then)) later h =
      let (x, ends) = later q in (x, then (k x) t ends)
  Passed-ends k unused next m es c d t (inr (r, q, then)) later h =
      (unused, then (k unused) t (returned-stays format r es d t q h))

  joined_step :
      (e : Event) (c d : Conversation)
      → c.stage ≡ at_joined
      → step format c e ≡ some d
      → IsAs c d
        ⊎ ((o : OnJoined) × (w : Result String (Unit {0})) × Passed at_echo
              (wait_joined o >> try errors w)
              c
              d)
  unfolding step time_out finish wait_joined
  joined_step (reads i) c d q h = inl (read-IsAs i c.reader c d h)
  joined_step (takes w) c d q h =
      let (o, p) = take_joined format w c d (ap (λ s. take format w s c) (sym q) ∙ h) in
      inr (
        o,
        w,
        subst (Passed at_echo (wait_joined o >> try errors w) c) (sym p) (
            go_on-Passed at_echo (wait_joined o >> try errors w)
              (record c { reader = released c.reader })),
      )
  joined_step times_out c d q h =
      let p : some (finish (wait_joined OnJoined.timeout) c) ≡ some d =
        ap (λ s. time_out format s c) (sym q) ∙ h in
      inr (
        OnJoined.timeout,
        ok tt,
        inr (error "Join group ack timeout", cc, λ k t i. (i.0 ∙ cc, i.1 ∙ cc)),
      )

  joined_ends :
      (es : List Event) (c t : Conversation) (r : Ending (Unit {0}))
      → c.stage ≡ at_joined
      → converse format c es ≡ some t
      → t.stage ≡ returned r
      → (a : Answers) × IsAs (finish (behind a) c) t
  unfolding converse finish
  joined_ends [] c t r q h k = let same : c ≡ t = run_steps-nil (step format) c t h in cc
  joined_ends (e ∷ es) c t r q h k =
      let (d, next, rest) = run_steps-next (step format) c t e es h in
      elim (joined_step e c d q next) [
        | inl same ↦
            let (a, ends) = joined_ends es d t r (same.0 ∙ q) rest k in
            (
              a,
              IsAs-trans (finish (behind a) c) (finish (behind a) d) t
                  (finish-IsAs (behind a) c d same) ends,
            )
        | inr (o, w, p) ↦
            let (l, ends) =
              Passed-ends echo_loop [] at_echo (wait_joined o >> try errors w) es c d t p
                (λ at. echo_ends format es d t r at rest k) rest in
            (record { joins = o; writes = w; echoes = l }, ends)
      ]

  connected_step :
      (e : Event) (c d : Conversation)
      → c.stage ≡ at_connected
      → step format c e ≡ some d
      → IsAs c d
        ⊎ ((o : OnConnected) × (w : Result String (Unit {0})) × Passed at_joined
              (wait_connected o >> try errors w)
              c
              d)
  unfolding step time_out finish wait_connected
  connected_step (reads i) c d q h = inl (read-IsAs i c.reader c d h)
  connected_step (takes w) c d q h =
      let (o, p) = take_connected format w c d (ap (λ s. take format w s c) (sym q) ∙ h) in
      inr (
        o,
        w,
        subst (Passed at_joined (wait_connected o >> try errors w) c) (sym p) (
            go_on-Passed at_joined (wait_connected o >> try errors w)
              (record c { reader = released c.reader })),
      )
  connected_step times_out c d q h =
      let p : some (finish (wait_connected OnConnected.timeout) c) ≡ some d =
        ap (λ s. time_out format s c) (sym q) ∙ h in
      inr (
        OnConnected.timeout,
        ok tt,
        inr (error "On connected timeout", cc, λ k t i. (i.0 ∙ cc, i.1 ∙ cc)),
      )

  connected_ends :
      (es : List Event) (c t : Conversation) (r : Ending (Unit {0}))
      → c.stage ≡ at_connected
      → converse format c es ≡ some t
      → t.stage ≡ returned r
      → (o : OnConnected) × (w : Result String (Unit {0})) × (a : Answers) × IsAs
          (finish ((wait_connected o >> try errors w) >> behind a) c)
          t
  unfolding converse finish
  connected_ends [] c t r q h k = let same : c ≡ t = run_steps-nil (step format) c t h in cc
  connected_ends (e ∷ es) c t r q h k =
      let (d, next, rest) = run_steps-next (step format) c t e es h in
      elim (connected_step e c d q next) [
        | inl same ↦
            let (o, w, a, ends) = connected_ends es d t r (same.0 ∙ q) rest k in
            let m = (wait_connected o >> try errors w) >> behind a in
            (o, w, a, IsAs-trans (finish m c) (finish m d) t (finish-IsAs m c d same) ends)
        | inr (o, w, p) ↦
            let (a, ends) =
              Passed-ends behind (record { joins = OnJoined.timeout; writes = ok tt; echoes = [] })
                at_joined (wait_connected o >> try errors w) es c d t p
                (λ at. joined_ends es d t r at rest k) rest in
            (o, w, a, ends)
      ]

  abbrev env_of : OnConnected → Result String (Unit {0}) → Answers → Env
  env_of o w a = record {
    dial = ok tt;
    on_connected = o;
    join_group = w;
    on_joined = a.joins;
    send_to_group = a.writes;
    on_echo = a.echoes;
  }

  body_of :
      (o : OnConnected) (w : Result String (Unit {0})) (a : Answers)
      → execute_body (env_of o w a) ≡ (wait_connected o >> try errors w) >> behind a
  unfolding execute_body
  body_of o w a =
      ap (λ m. wait_connected o >> (try errors w >> m))
        (sym (bind_assoc (wait_joined a.joins) (try errors a.writes) (echo_loop a.echoes)))
      ∙ sym (bind_assoc (wait_connected o) (try errors w) (behind a))

  pub converse-execute :
      (es : List Event) (t : Conversation) (r : Ending (Unit {0}))
      → converse format start es ≡ some t
      → t.stage ≡ returned r
      → (env : Env) × (env.dial ≡ ok tt) × (execute env ≡ (t.own, r))
  unfolding start finish execute
  converse-execute es t r h k =
      let (o, w, a, ends) = connected_ends es start t r refl h k in
      let m = (wait_connected o >> try errors w) >> behind a in
      let same : execute (env_of o w a) ≡ (t.own, m.1) =
        ap tracked (body_of o w a) ∙ ap (λ x. (x, m.1)) (sym ends.1) in
      (env_of o w a, refl, same ∙ ap (λ x. (t.own, x)) cc)
