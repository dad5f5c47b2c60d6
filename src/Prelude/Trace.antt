-- ===== src/Prelude/Trace.antt =====
-- Runs of a state machine over a list of events. `none` of a step: the event cannot happen there.
use mathlib.Core.Path.{◌≡◌, ◌∙◌, ap, subst}
use mathlib.Core.List.{List, [], ◌∷◌, ◌++◌}
use mathlib.Core.Logic.{inl, inr}
use mathlib.Core.Option.{Option, none, some}
use native.Mathlib.Omega.{arith}
use sigbench.Prelude.Tests.{Option-cases}

unfoldable pub run_steps : {S E : Type 0} → (S → E → Option S) → S → List E → Option S
run_steps step s [] = some s
run_steps step s (e ∷ es) = elim (step s e) [ none ↦ none | some t ↦ run_steps step t es ]

module _ {S E : Type 0} (step : S → E → Option S) where
  pub run_steps-nil : (s t : S) → run_steps step s [] ≡ some t → s ≡ t
  unfolding run_steps
  run_steps-nil s t h = cc

  pub run_steps-cons :
      (s t : S) (e : E) (es : List E)
      → step s e ≡ some t
      → run_steps step s (e ∷ es) ≡ run_steps step t es
  unfolding run_steps
  run_steps-cons s t e es next = ground arith

  -- A run over an event and others takes the event's step, and goes on from there.
  pub run_steps-next :
      (s u : S) (e : E) (es : List E)
      → run_steps step s (e ∷ es) ≡ some u
      → (t : S) × (step s e ≡ some t) × (run_steps step t es ≡ some u)
  unfolding run_steps
  run_steps-next s u e es h = elim (Option-cases (step s e)) [
    | inl stuck ↦ absurd (ground arith)
    | inr (t, next) ↦ (t, next, ground arith)
  ]

  -- A run that goes on from where another ended.
  pub run_steps-append :
      (s t : S) (es fs : List E)
      → run_steps step s es ≡ some t
      → run_steps step s (es ++ fs) ≡ run_steps step t fs
  run_steps-append s t [] fs h = ap (λ x. run_steps step x fs) (run_steps-nil s t h)
  run_steps-append s t (e ∷ es) fs h =
      let (x, next, rest) = run_steps-next s t e es h in
      run_steps-cons s x e (es ++ fs) next ∙ run_steps-append x t es fs rest

  -- What every step keeps, every run keeps.
  pub run_steps_rule {ℓ} :
      (P : S → Type ℓ)
      → ((s t : S) (e : E) → P s → step s e ≡ some t → P t)
      → (s t : S) (es : List E) → P s
      → run_steps step s es ≡ some t
      → P t
  run_steps_rule P keep s t [] p h = subst P (run_steps-nil s t h) p
  run_steps_rule P keep s t (e ∷ es) p h =
      let (x, next, rest) = run_steps-next s t e es h in
      run_steps_rule P keep x t es (keep s x e p next) rest
