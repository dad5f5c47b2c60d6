-- ===== src/Agent/Plan.antt =====
-- When the loop of runPhase in agent/agent_controller.go starts all its launchers, and when it brings
-- the agent down.
use sigbench.Prelude.{
  ℕ, ◌+◌, ◌<◌, ◌≡◌, ◌≢◌, String, List, [], ◌∷◌, some, returned, arith, half_mod, lookup, All,
  length, Result, >>=-eq-returned,
}
use sigbench.Base.{Job, JobPhase}
use sigbench.Agent.Users.{Floats, total_session_users, get_session_users}
use sigbench.Agent.Phase.{
  Launcher, head_percentage, find_session, make_chan, plan_sessions, plan_phase,
}

abbrev pub capacities : {S : Type 0} → List (Launcher S) → List ℕ
capacities [] = []
capacities (l ∷ ls) = l.capacity ∷ capacities ls

module _ (fuel : ℕ) (fl : Floats) (phase : JobPhase) (n i : ℕ) where
  -- The agent's shares of the sessions' users, in the order of the percentages.
  abbrev pub HasShares : List String → List fl.F → List ℕ → Type 0
  HasShares [] ps cs = cs ≡ []
  HasShares (name ∷ names) [] cs = ⊥
  HasShares (name ∷ names) (p ∷ ps) [] = ⊥
  HasShares (name ∷ names) (p ∷ ps) (c ∷ cs) =
      (get_session_users fuel fl phase p n i ≡ returned c) × HasShares names ps cs

-- The totals are not negative, and small enough for int64 arithmetic with n agents.
abbrev pub AreSmall : (fl : Floats) → JobPhase → ℕ → List fl.F → Type 0
AreSmall fl phase n = All (λ p. total_session_users fl phase p + n < half_mod)

abbrev pub AreKnown : {S : Type 0} → List (String × S) → List String → Type 0
AreKnown {S} sessions = All (λ name. (s : S) × (lookup name sessions ≡ some s))

-- The body of runPhase.
module _ {S E : Type 0} (parse_duration : String → Result E ℕ) (fuel : ℕ) (fl : Floats)
    (sessions : List (String × S)) (phase : JobPhase) (n i : ℕ) (job : Job fl.F) where
  plan_sessions-short :
      (names : List String) (ps : List fl.F) (ls : List (Launcher S))
      → length ps < length names
      → plan_sessions parse_duration fuel fl sessions phase n i names ps ≢ returned ls
  unfolding plan_sessions head_percentage
  plan_sessions-short [] ps ls h e = absurd (omega arith)
  plan_sessions-short (name ∷ names) [] ls h e = cc
  plan_sessions-short (name ∷ names) (p ∷ ps) ls h e =
      let (u, _, e₁) = >>=-eq-returned (get_session_users fuel fl phase p n i) _ e in
      let (s, _, e₂) = >>=-eq-returned (find_session name sessions) _ e₁ in
      let (c, _, e₃) = >>=-eq-returned (make_chan u) _ e₂ in
      let (ls', planned, _) =
        >>=-eq-returned (plan_sessions parse_duration fuel fl sessions phase n i names ps) _ e₃ in
      plan_sessions-short names ps ls' (omega arith) planned

  -- Whenever a job has fewer percentages than session names, no run of runPhase's loop over the
  -- names returns: base/job.go's Validate lets such a job pass.
  pub plan_phase-short :
      (ls : List (Launcher S))
      → length job.session_percentages < length job.session_names
      → plan_phase parse_duration fuel fl sessions phase n i job ≢ returned ls
  unfolding plan_phase
  plan_phase-short ls h = plan_sessions-short job.session_names job.session_percentages ls h

module _ {S E : Type 0} (parse_duration : String → Result E ℕ) (fuel : ℕ) (fl : Floats)
    (sessions : List (String × S)) (n i : ℕ) (job : Job fl.F) where
  -- Each phase's launchers have the capacities that are the agent's shares in that phase.
  abbrev pub HaveShares : List JobPhase → List (List (Launcher S)) → Type 0
  HaveShares [] lss = lss ≡ []
  HaveShares (phase ∷ phases) [] = ⊥
  HaveShares (phase ∷ phases) (ls ∷ lss) =
      HasShares fuel fl phase n i job.session_names job.session_percentages (capacities ls)
      × HaveShares phases lss
