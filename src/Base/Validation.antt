-- ===== src/Base/Validation.antt =====
-- What Job.Validate of base/job.go accepts and refuses.
use sigbench.Prelude.{
  ℕ, ◌≡◌, refl, ap, sym, ◌∙◌, String, List, [], ◌∷◌, ◌++◌, Option, none, some, arith, Result, ok,
  err, All,
}
use sigbench.Base.{JobPhase, Job, validate_phase, get_duration, validate_phases, validate}

-- A result that is no error.
abbrev pub IsOk : {E A : Type 0} → Result E A → Type 0
IsOk (ok a) = Unit {0}
IsOk (err e) = ⊥

module _ {E : Type 0} (parse_duration : String → Result E ℕ) where
  -- A list of phases of which one does not parse: those before it do, and `e` is its error.
  abbrev pub FirstError : List JobPhase → E → Type 0
  FirstError ps e =
      (before : List JobPhase) × (p : JobPhase) × (later : List JobPhase) × (ps
        ≡ before ++ p ∷ later)
      × All (λ q. IsOk (parse_duration q.duration)) before
      × (parse_duration p.duration ≡ err e)

  -- The outcome of a validation, by the phases.
  abbrev pub Validated : List JobPhase → Option E → Type 0
  Validated ps none = All (λ p. parse_duration p.duration ≡ ok (get_duration parse_duration p)) ps
  Validated ps (some e) = FirstError ps e

  first :
      (p : JobPhase) (ps : List JobPhase) (e : E)
      → parse_duration p.duration ≡ err e
      → FirstError (p ∷ ps) e
  first p ps e h = ([], p, ps, refl, tt, h)

  later :
      (p : JobPhase) (ps : List JobPhase) (d : ℕ) (o : Option E)
      → parse_duration p.duration ≡ ok d
      → get_duration parse_duration p ≡ d
      → Validated ps o
      → Validated (p ∷ ps) o
  later p ps d none h g v = (h ∙ ap ok (sym g), v)
  later p ps d (some e) h g (before, q, rest, split, fine, bad) =
      (p ∷ before, q, rest, ap (◌∷◌ p) split, (rw h tt, fine), bad)

  parsed :
      (p : JobPhase) (ps : List JobPhase) (r : Result E ℕ)
      → parse_duration p.duration ≡ r
      → Validated ps (validate_phases parse_duration ps)
      → Validated (p ∷ ps) (validate_phases parse_duration (p ∷ ps))
  unfolding validate_phases validate_phase get_duration
  parsed p ps (ok d) e v =
      let skipped : validate_phases parse_duration (p ∷ ps) ≡ validate_phases parse_duration ps =
        ground arith in
      rw skipped (later p ps d (validate_phases parse_duration ps) e (ground arith) v)
  parsed p ps (err x) e v =
      let stopped : validate_phases parse_duration (p ∷ ps) ≡ some x = ground arith in
      rw stopped (first p ps x e)

  validate_phases-Validated :
      (ps : List JobPhase) → Validated ps (validate_phases parse_duration ps)
  unfolding validate_phases
  validate_phases-Validated [] = tt
  validate_phases-Validated (p ∷ ps) =
      parsed p ps (parse_duration p.duration) refl (validate_phases-Validated ps)

  -- Validate returns nil exactly for a job whose phases all have a duration that parses, which is
  -- then what GetDuration returns; and it returns the error of the first phase that has none.
  pub validate-Validated :
      {F : Type 0} (job : Job F) → Validated job.phases (validate parse_duration job)
  unfolding validate
  validate-Validated job = validate_phases-Validated job.phases
