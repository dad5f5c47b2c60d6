-- ===== src/Agent/Drain.antt =====
-- How a phase of runPhase in agent/agent_controller.go winds down after its timer has fired.
use sigbench.Prelude.{
  ℕ, zero, suc, ◌+◌, ◌*◌, ◌≤◌, ◌≡◌, ◌≢◌, ◌∙◌, refl, true, false, List, [], ◌∷◌, none, some, arith,
  inl, inr, Option-cases, Bool-cases, run_steps, run_steps-nil, run_steps-cons, run_steps-next,
  length, ltb, if◌then◌else◌,
}
use sigbench.Agent.Phase.{
  Crew, Event, launch, id_made, session_done, wake, release, signal, leave, new_crew, step, run,
}
use sigbench.Agent.Crew.{Inv, new_crew-Inv, step-Inv, run-Inv}

-- The steps that the goroutines have still to make.
abbrev pub remaining : Crew → ℕ
remaining c =
    5 * c.starting
    + 4 * c.executing
    + 3 * c.sleeping
    + 2 * c.releasing
    + c.signalling
    + (if c.over then 0 else 1)

step-remaining :
    (c d : Crew) (e : Event)
    → c.expired ≡ true
    → step c e ≡ some d
    → (d.expired ≡ true) × (remaining d + 1 ≤ remaining c)
unfolding step
step-remaining c d launch x h = ground arith
step-remaining c d _ x h = ground arith

-- After the timer has fired, no schedule is longer than the steps that remain: whatever the
-- sessions do, the launcher and its goroutines stop or block after finitely many steps.
length-le-remaining :
    (c d : Crew) (es : List Event)
    → c.expired ≡ true
    → run c es ≡ some d
    → length es + remaining d ≤ remaining c
length-le-remaining c d [] x h = let e : c ≡ d = run_steps-nil step c d h in rw e (omega arith)
length-le-remaining c d (e ∷ es) x h =
    let (y, next, rest) = run_steps-next step c d e es h in
    let (fired, less) = step-remaining c y e x next in
    omega (arith, less, length-le-remaining y d es fired rest)

-- The next event of a crew that winds down.
next_event : Crew → Event
next_event c =
    if ltb 0 c.starting
    then id_made
    else if ltb 0 c.executing
    then session_done
    else if ltb 0 c.sleeping
    then wake
    else if ltb 0 c.releasing
    then release
    else if ltb 0 c.signalling
    then signal
    else leave

next_event-enabled :
    (c : Crew)
    → Inv c
    → c.expired ≡ true
    → c.lost ≡ 0
    → c.over ≡ false
    → step c (next_event c) ≢ none
unfolding next_event step
next_event-enabled c v x l o = ground arith

next_event-lost : (c d : Crew) → c.lost ≡ 0 → step c (next_event c) ≡ some d → d.lost ≡ 0
unfolding next_event step
next_event-lost c d l h = ground arith

abbrev Ends : Crew → Type 0
Ends c = (es : List Event) × (d : Crew) × (run c es ≡ some d) × (d.over ≡ true)

ended_now : (c : Crew) → c.over ≡ true → Ends c
unfolding run_steps
ended_now c o = ([], c, refl, o)

cons-Ends : (c x : Crew) (e : Event) → step c e ≡ some x → Ends x → Ends c
cons-Ends c x e next (es, d, r, o) = (e ∷ es, d, run_steps-cons step c x e es next ∙ r, o)

by-Ends : (m : ℕ) (c : Crew) → remaining c ≤ m → Inv c → c.expired ≡ true → c.lost ≡ 0 → Ends c
by-Ends zero c b v x l = elim (Bool-cases c.over) [
  | inl o ↦ ended_now c o
  | inr o ↦ absurd (ground arith)
]
by-Ends (suc m) c b v x l = elim (Bool-cases c.over) [
  | inl o ↦ ended_now c o
  | inr o ↦ elim (Option-cases (step c (next_event c))) [
    | inl stuck ↦ absurd (next_event-enabled c v x l o stuck)
    | inr (d, next) ↦
        let (fired, less) = step-remaining c d (next_event c) x next in
        cons-Ends c d (next_event c) next (
          by-Ends m d (omega arith) (step-Inv c d (next_event c) v next) fired
            (next_event-lost c d l next))
  ]
]

-- From every moment of a phase at which the timer has fired and no user was lost, the goroutines can
-- go on to the end: some schedule leads to the call of swg.Done.
pub run-Ends :
    (n : ℕ) (es : List Event) (c : Crew)
    → run (new_crew n) es ≡ some c
    → c.expired ≡ true
    → c.lost ≡ 0
    → (fs : List Event) × (d : Crew) × (run c fs ≡ some d) × (d.over ≡ true)
run-Ends n es c h x l =
    by-Ends (remaining c) c (omega arith) (run-Inv (new_crew n) c es (new_crew-Inv n) h) x l
