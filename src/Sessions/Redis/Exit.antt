-- ===== src/Sessions/Redis/Exit.antt =====
-- The end of the subscribing goroutine of sessions/redis_pubsub.go beside Execute: the goroutine looks at
-- `exit` before every Receive, and Execute registers the store of it behind its publishing loop.
use mathlib.Core.Path.{subst}
use sigbench.Prelude.{
  ◌≡◌, ◌∙◌, refl, sym, ap, String, Bool, true, false, List, [], ◌∷◌, Option, none, some, ok, err,
  str_eq, if◌then◌else◌, run_steps, run_steps-nil, run_steps-next, run_steps_rule, All, Bool-cases,
  inl, inr, arith,
}
use sigbench.Sessions.Redis.{Inbound, message, failed, other}

-- The goroutine: before Subscribe, before its test of `exit`, in Receive, in its send, or at its end.
pub data Subscriber : Type 0 where
  subscribing checking receiving putting ended : Subscriber

-- Execute: before `<-startChan`, in its publishing loop, in its receiving loop; returned from the former
-- with an error, or from the latter.
pub data Publisher : Type 0 where
  waiting publishing collecting gave_up finished : Publisher

pub record PubSub : Type 0 where
  pub subscriber : Subscriber
  pub publisher : Publisher
  pub started : Bool
  pub exit : Bool

unfoldable pub launch : PubSub
launch = record { subscriber = subscribing; publisher = waiting; started = false; exit = false }

pub data Event : Type 0 where
  subscribes subscribe_fails tests puts begins publish_fails published finishes : Event
  receives : Inbound → Event

-- A message of the user is sent on; an error of Receive ends the goroutine.
unfoldable pub on_receive : String → Inbound → Subscriber
on_receive user (message (ok (uid, timestamp))) = if str_eq uid user then putting else checking
on_receive user (message (err e)) = checking
on_receive user (failed e) = ended
on_receive user other = checking

unfoldable pub subscriber_step : String → Event → Subscriber → PubSub → Option PubSub
unfolding on_receive
subscriber_step user subscribes subscribing c =
    some (record c { subscriber = checking; started = true })
subscriber_step user subscribe_fails subscribing c = some (record c { subscriber = ended })
subscriber_step user tests checking c =
    some (record c { subscriber = if c.exit then ended else receiving })
subscriber_step user (receives i) receiving c = some (record c { subscriber = on_receive user i })
subscriber_step user puts putting c = some (record c { subscriber = checking })
subscriber_step user _ _ c = none

unfoldable pub publisher_step : Event → Publisher → PubSub → Option PubSub
publisher_step begins waiting c =
    if c.started then some (record c { publisher = publishing }) else none
publisher_step publish_fails publishing c = some (record c { publisher = gave_up })
publisher_step published publishing c = some (record c { publisher = collecting })
publisher_step finishes collecting c = some (record c { publisher = finished; exit = true })
publisher_step _ _ c = none

-- The events of Execute.
abbrev is_publishers : Event → Bool
is_publishers begins = true
is_publishers publish_fails = true
is_publishers published = true
is_publishers finishes = true
is_publishers _ = false

unfoldable pub step : String → PubSub → Event → Option PubSub
unfolding subscriber_step publisher_step
step user c e =
    if is_publishers e
    then publisher_step e c.publisher c
    else subscriber_step user e c.subscriber c

unfoldable pub pub_sub : String → PubSub → List Event → Option PubSub
pub_sub user c es = run_steps (step user) c es

-- The goroutine has not ended.
abbrev pub IsUp : Subscriber → Type 0
IsUp ended = ⊥
IsUp _ = Unit {0}

-- Neither Subscribe nor Receive fails.
abbrev pub IsSound : Event → Type 0
IsSound subscribe_fails = ⊥
IsSound (receives (failed e)) = ⊥
IsSound _ = Unit {0}

stuck : {A : Type 0} {P : Type 0} {d : A} → none ≡ some d → P
stuck h = cc

on_receive-IsUp : (user : String) (i : Inbound) → IsSound (receives i) → IsUp (on_receive user i)
unfolding on_receive
on_receive-IsUp user (message (ok (uid, timestamp))) s = elim (Bool-cases (str_eq uid user)) [
  | inl own ↦ rw own tt
  | inr foreign ↦ rw foreign tt
]
on_receive-IsUp user (message (err e)) s = tt
on_receive-IsUp user (failed e) s = s
on_receive-IsUp user other s = tt

-- The goroutine's step leaves Execute and `exit` as they are.
subscriber_step-others :
    (user : String) (e : Event) (x : Subscriber) (c d : PubSub)
    → subscriber_step user e x c ≡ some d
    → (d.publisher ≡ c.publisher) × (d.exit ≡ c.exit)
unfolding subscriber_step
subscriber_step-others user subscribes subscribing c d h = (cc, cc)
subscriber_step-others user subscribe_fails subscribing c d h = (cc, cc)
subscriber_step-others user tests checking c d h = (cc, cc)
subscriber_step-others user (receives i) receiving c d h = (cc, cc)
subscriber_step-others user puts putting c d h = (cc, cc)
subscriber_step-others user _ _ c d h = stuck h

-- `exit` is set by the return from the receiving loop alone.
abbrev ExitOf : Publisher → Bool → Type 0
ExitOf finished b = Unit {0}
ExitOf _ b = b ≡ false

publisher_step-ExitOf :
    (e : Event) (p : Publisher) (c d : PubSub)
    → ExitOf p c.exit
    → publisher_step e p c ≡ some d
    → ExitOf d.publisher d.exit
unfolding publisher_step
publisher_step-ExitOf begins waiting c d x h = elim (Bool-cases c.started) [
  | inl s ↦
      subst (λ (y : PubSub). ExitOf y.publisher y.exit) {x = record c { publisher = publishing }}
        {y = d} (ground (arith, s, h)) x
  | inr s ↦ absurd (ground (arith, s, h))
]
publisher_step-ExitOf publish_fails publishing c d x h =
    subst (λ (y : PubSub). ExitOf y.publisher y.exit) {x = record c { publisher = gave_up }} {y = d}
      (cc) x
publisher_step-ExitOf published publishing c d x h =
    subst (λ (y : PubSub). ExitOf y.publisher y.exit) {x = record c { publisher = collecting }}
      {y = d} (cc) x
publisher_step-ExitOf finishes collecting c d x h =
    subst (λ (y : PubSub). ExitOf y.publisher y.exit)
      {x = record c { publisher = finished; exit = true }} {y = d} (cc) tt
publisher_step-ExitOf _ _ c d x h = stuck h

step-ExitOf :
    (user : String) (c d : PubSub) (e : Event)
    → ExitOf c.publisher c.exit
    → step user c e ≡ some d
    → ExitOf d.publisher d.exit
unfolding step
step-ExitOf user c d e x h = elim (Bool-cases (is_publishers e)) [
  | inl p ↦ publisher_step-ExitOf e c.publisher c d x (ground (arith, p, h))
  | inr p ↦
      let same = subscriber_step-others user e c.subscriber c d (ground (arith, p, h)) in
      subst (λ y. ExitOf y d.exit) (sym same.0) (subst (ExitOf c.publisher) (sym same.1) x)
]

subscriber_step-IsUp :
    (user : String) (e : Event) (x : Subscriber) (c d : PubSub)
    → IsSound e
    → c.exit ≡ false
    → subscriber_step user e x c ≡ some d
    → IsUp d.subscriber
unfolding subscriber_step
subscriber_step-IsUp user subscribes subscribing c d s x h = subst IsUp {x = checking} (cc) tt
subscriber_step-IsUp user subscribe_fails subscribing c d s x h = absurd s
subscriber_step-IsUp user tests checking c d s x h =
    subst IsUp {x = receiving} (ground (arith, x, h)) tt
subscriber_step-IsUp user (receives i) receiving c d s x h =
    subst IsUp {x = on_receive user i} (cc) (on_receive-IsUp user i s)
subscriber_step-IsUp user puts putting c d s x h = subst IsUp {x = checking} (cc) tt
subscriber_step-IsUp user _ _ c d s x h = stuck h

no_more : (e : Event) (c d : PubSub) → publisher_step e gave_up c ≡ some d → ⊥
unfolding publisher_step
no_more subscribes c d h = stuck h
no_more subscribe_fails c d h = stuck h
no_more tests c d h = stuck h
no_more puts c d h = stuck h
no_more begins c d h = stuck h
no_more publish_fails c d h = stuck h
no_more published c d h = stuck h
no_more finishes c d h = stuck h
no_more (receives i) c d h = stuck h

-- Execute has given up, `exit` is not set, and the goroutine goes on.
abbrev Abandoned : PubSub → Type 0
Abandoned c = (c.publisher ≡ gave_up) × (c.exit ≡ false) × IsUp c.subscriber

step-Abandoned :
    (user : String) (c d : PubSub) (e : Event)
    → IsSound e
    → Abandoned c
    → step user c e ≡ some d
    → Abandoned d
unfolding step
step-Abandoned user c d e s a h = elim (Bool-cases (is_publishers e)) [
  | inl p ↦ absurd (no_more e c d (ap (λ y. publisher_step e y c) (sym a.0) ∙ ground (arith, p, h)))
  | inr p ↦
      let k : subscriber_step user e c.subscriber c ≡ some d = ground (arith, p, h) in
      let same = subscriber_step-others user e c.subscriber c d k in
      (same.0 ∙ a.0, same.1 ∙ a.1, subscriber_step-IsUp user e c.subscriber c d s a.1 k)
]

pub_sub-Abandoned :
    (user : String) (es : List Event) (c d : PubSub)
    → All IsSound es
    → Abandoned c
    → pub_sub user c es ≡ some d
    → Abandoned d
unfolding pub_sub
pub_sub-Abandoned user [] c d s a h = subst Abandoned (run_steps-nil (step user) c d h) a
pub_sub-Abandoned user (e ∷ es) c d s a h =
    let (x, next, rest) = run_steps-next (step user) c d e es h in
    pub_sub-Abandoned user es x d s.1 (step-Abandoned user c x e s.0 a next) rest

-- Over every run of Execute and its subscribing goroutine: once Execute has returned because a message
-- could not be published, and the goroutine has not ended by then, the goroutine never ends as long as
-- its connection gives no error.
pub pub_sub-listens :
    (user : String) (es fs : List Event) (c d : PubSub)
    → pub_sub user launch es ≡ some c
    → c.publisher ≡ gave_up
    → IsUp c.subscriber
    → All IsSound fs
    → pub_sub user c fs ≡ some d
    → IsUp d.subscriber
unfolding pub_sub launch
pub_sub-listens user es fs c d h gave up sound more =
    let x : ExitOf c.publisher c.exit =
      run_steps_rule (step user) (λ y. ExitOf y.publisher y.exit) (step-ExitOf user) launch c es
        refl h in
    (pub_sub-Abandoned user fs c d sound (gave, subst (λ p. ExitOf p c.exit) gave x, up) more).2
