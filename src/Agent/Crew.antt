-- ===== src/Agent/Crew.antt =====
-- The state machine of runPhase and executeSession in agent/agent_controller.go: bounds, what blocks
-- and how a phase ends.
use sigbench.Prelude.{
  ℕ, ◌+◌, ◌≤◌, ◌<◌, ◌≡◌, refl, true, false, List, [], ◌∷◌, some, arith, inl, inr, Bool-cases,
  run_steps-nil, run_steps-next, run_steps_rule, ◌∙◌, sum_of,
}
use sigbench.Agent.Phase.{Crew, Event, launch, new_crew, step, run}

pub record Inv (c : Crew) : Type 0 where
  pub bounded : c.buffered ≤ c.capacity
  pub slots : c.buffered ≡ c.starting + c.executing + c.sleeping + c.releasing + c.lost
  pub waits : c.waiting ≡ c.buffered + c.signalling
  pub ended : c.over ≡ true → (c.expired ≡ true) × (c.waiting ≡ 0)

pub new_crew-Inv : (n : ℕ) → Inv (new_crew n)
unfolding new_crew
new_crew-Inv n = ground arith

pub step-Inv : (c d : Crew) (e : Event) → Inv c → step c e ≡ some d → Inv d
unfolding step
step-Inv c d launch v h = ground arith
step-Inv c d _ v h = ground arith

step-capacity : (c d : Crew) (e : Event) → step c e ≡ some d → d.capacity ≡ c.capacity
unfolding step
step-capacity c d launch h = ground arith
step-capacity c d _ h = ground arith

pub run-Inv : (c d : Crew) (es : List Event) → Inv c → run c es ≡ some d → Inv d
run-Inv c d es v h = run_steps_rule step Inv (λ c' d' e p s. step-Inv c' d' e p s) c d es v h

-- At every moment of a phase the users in flight, those whose goroutine gave up for want of a user
-- id included, are at most the capacity, and no goroutine waits at `<-done`: whoever stands there
-- finds a token.
pub run-bounded :
    (n : ℕ) (es : List Event) (d : Crew)
    → run (new_crew n) es ≡ some d
    → (d.starting + d.executing + d.sleeping + d.releasing + d.lost ≤ n)
      × (d.releasing ≤ d.buffered)
run-bounded n es d h =
    let v = run-Inv (new_crew n) d es (new_crew-Inv n) h in
    let same =
      run_steps_rule step (λ x. x.capacity ≡ n) (λ a b e p s. step-capacity a b e s ∙ p)
        (new_crew n) d es (unfold new_crew in refl) h in
    omega (arith, v.slots, v.bounded, same)

abbrev pub is_launch : Event → ℕ
is_launch launch = 1
is_launch _ = 0

-- Every user launched is finished or counted by `wg`.
step-account :
    (c d : Crew) (e : Event)
    → Inv c
    → step c e ≡ some d
    → d.finished + d.waiting ≡ c.finished + c.waiting + is_launch e
unfolding step
step-account c d launch v h = ground arith
step-account c d _ v h = ground arith

run-account :
    (c d : Crew) (es : List Event)
    → Inv c
    → run c es ≡ some d
    → d.finished + d.waiting ≡ c.finished + c.waiting + sum_of is_launch es
run-account c d [] v h = let e : c ≡ d = run_steps-nil step c d h in rw e (omega arith)
run-account c d (e ∷ es) v h =
    let (x, next, rest) = run_steps-next step c d e es h in
    omega (arith, step-account c x e v next, run-account x d es (step-Inv c x e v next) rest)

-- When the launcher has called swg.Done, its timer had fired, and every user that it ever launched
-- has finished: none is left at any point of executeSession, and none was lost.
pub run-over :
    (n : ℕ) (es : List Event) (d : Crew)
    → run (new_crew n) es ≡ some d
    → d.over ≡ true
    → (d.expired ≡ true) × (d.finished ≡ sum_of is_launch es) × (d.executing ≡ 0) × (d.lost ≡ 0)
run-over n es d h o =
    let v = run-Inv (new_crew n) d es (new_crew-Inv n) h in
    let a = run-account (new_crew n) d es (new_crew-Inv n) h in
    let (fired, none_waits) = v.ended o in
    let fresh : (new_crew n).finished + (new_crew n).waiting ≡ 0 = unfold new_crew in refl in
    (
      fired,
      omega (arith, a, none_waits, fresh),
      omega (arith, none_waits, v.waits, v.slots),
      omega (arith, none_waits, v.waits, v.slots),
    )

step-lost : (c d : Crew) (e : Event) → step c e ≡ some d → c.lost ≤ d.lost
unfolding step
step-lost c d launch h = ground arith
step-lost c d _ h = ground arith

-- Once one user's goroutine has returned early because no user id could be generated, the launcher
-- never calls swg.Done, whatever happens afterwards: the phase does not end.
pub lost_user_blocks :
    (n : ℕ) (es fs : List Event) (c d : Crew)
    → run (new_crew n) es ≡ some c
    → 0 < c.lost
    → run c fs ≡ some d
    → d.over ≡ false
lost_user_blocks n es fs c d h l k =
    let v = run-Inv c d fs (run-Inv (new_crew n) c es (new_crew-Inv n) h) k in
    let still =
      run_steps_rule step (λ x. 0 < x.lost) (λ a b e p s. omega (arith, p, step-lost a b e s)) c d
        fs l k in
    elim (Bool-cases d.over) [
      | inl o ↦ absurd (omega (arith, (v.ended o).1, v.waits, v.slots, still))
      | inr no_end ↦ no_end
    ]
