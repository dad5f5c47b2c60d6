-- ===== src/Master/Collect.antt =====
-- MasterController.collectCounters of master/master_controller.go. The agents' replies to
-- AgentController.ListCounters are arguments: the counters that the RPC client filled in, and its
-- error. `now` is time.Now().
use sigbench.Prelude.{
  ℕ, ◌+◌, ◌%◌, ◌≡◌, refl, String, List, [], ◌∷◌, Option, none, some, Outcome, returned, ◌>>=◌,
  arith, ◌∙◌, Option-cases, Bool-cases, inl, inr, str_eq, lookup, word_mod, sum_of, All,
}
use sigbench.Base.{Job}
use sigbench.Counters.{Counters, IsMap, get, add_counters, get-add_counters, get-empty}
use sigbench.Sessions.Api.{SessionApi}
use native.Mathlib.Nat.{add_assoc, zero-add}
use mathlib.Core.Path.{subst}

-- The loop over the agents: a failed call is logged, and what it left in `result` is added.
unfoldable pub add_replies : {E : Type 0} → List (Counters × Option E) → Counters → Counters
add_replies [] counters = counters
add_replies ((reply, e) ∷ replies) counters = add_replies replies (add_counters counters reply)

module _ {F E : Type 0} (api : SessionApi F E) where
  open api use {Session, aggregator}

  -- A name that SessionMap lacks gives a nil session, which is no CounterAggregator.
  unfoldable pub aggregate_session :
      List (String × Session) → Job F → ℕ → String → Counters → Outcome Counters
  aggregate_session sessions job now name counters = elim (lookup name sessions) [
    | none ↦ returned counters
    | some s ↦ elim (aggregator s) [ none ↦ returned counters | some agg ↦ agg job now counters ]
  ]

  -- The loop over the session names.
  unfoldable pub aggregate_sessions :
      List (String × Session) → Job F → ℕ → List String → Counters → Outcome Counters
  aggregate_sessions sessions job now [] counters = returned counters
  aggregate_sessions sessions job now (name ∷ names) counters =
      aggregate_session sessions job now name counters >>= aggregate_sessions sessions job now names

  unfoldable pub collect_counters :
      List (String × Session) → Job F → ℕ → List (Counters × Option E) → Outcome Counters
  unfolding add_replies aggregate_sessions aggregate_session
  collect_counters sessions job now replies =
      aggregate_sessions sessions job now job.session_names (add_replies replies [])

pub get-add_replies :
    {E : Type 0} (j : String) (replies : List (Counters × Option E)) (acc : Counters) (s : ℕ)
    → All (λ r. IsMap r.0) replies
    → get j acc ≡ s % word_mod
    → get j (add_replies replies acc) ≡ (s + sum_of (λ r. get j r.0) replies) % word_mod
unfolding add_replies
get-add_replies j [] acc s maps h = omega (arith, h)
get-add_replies j ((reply, e) ∷ replies) acc s maps h =
    get-add_replies j replies (add_counters acc reply) (s + get j reply) maps.1
      (get-add_counters j acc reply s maps.0 h)
    ∙ rw (add_assoc s (get j reply) (sum_of (λ r. get j r.0) replies))

module _ {F E : Type 0} (api : SessionApi F E) (job : Job F) (now : ℕ) (j : String) where
  open api use {Session, aggregator}

  -- The aggregator returns at this job and time, and leaves the counter at the key as it was.
  abbrev pub Leaves : (Job F → ℕ → Counters → Outcome Counters) → Type 0
  Leaves agg =
      (c : Counters) → (c' : Counters) × (agg job now c ≡ returned c') × (get j c' ≡ get j c)

  abbrev pub MaybeLeaves : Option (Job F → ℕ → Counters → Outcome Counters) → Type 0
  MaybeLeaves none = Unit {0}
  MaybeLeaves (some agg) = Leaves agg

  abbrev pub AllLeave : List (String × Session) → Type 0
  AllLeave = All (λ e. MaybeLeaves (aggregator e.1))

  abbrev Kept : Counters → Outcome Counters → Type 0
  Kept c o = (c' : Counters) × (o ≡ returned c') × (get j c' ≡ get j c)

  elim-Kept :
      (c : Counters) (o : Option (Job F → ℕ → Counters → Outcome Counters))
      → MaybeLeaves o
      → Kept c (elim o [ none ↦ returned c | some agg ↦ agg job now c ])
  elim-Kept c none leaves = (c, refl, refl)
  elim-Kept c (some agg) leaves = leaves c

  lookup-AllLeave :
      (sessions : List (String × Session)) (name : String) (s : Session)
      → AllLeave sessions
      → lookup name sessions ≡ some s
      → MaybeLeaves (aggregator s)
  unfolding lookup
  lookup-AllLeave [] name s leaves e = absurd (ground arith)
  lookup-AllLeave ((k, x) ∷ sessions) name s leaves e = elim (Bool-cases (str_eq k name)) [
    | inl here ↦
        let same : x ≡ s = ground arith in subst (λ y. MaybeLeaves (aggregator y)) same leaves.0
    | inr there ↦ lookup-AllLeave sessions name s leaves.1 (ground arith)
  ]

  aggregate_session-Kept :
      (sessions : List (String × Session)) (name : String) (c : Counters)
      → AllLeave sessions
      → Kept c (aggregate_session api sessions job now name c)
  unfolding aggregate_session
  aggregate_session-Kept sessions name c leaves = elim (Option-cases (lookup name sessions)) [
    | inl e ↦ (c, rw (e, aggregate_session), refl)
    | inr (s, e) ↦
        let (c', r, same) = elim-Kept c (aggregator s) (lookup-AllLeave sessions name s leaves e) in
        (c', rw (e, aggregate_session) r, same)
  ]

  aggregate_sessions-Kept :
      (sessions : List (String × Session)) (names : List String) (c : Counters)
      → AllLeave sessions
      → Kept c (aggregate_sessions api sessions job now names c)
  unfolding aggregate_sessions
  aggregate_sessions-Kept sessions [] c leaves = (c, refl, refl)
  aggregate_sessions-Kept sessions (name ∷ names) c leaves =
      let (d, r, same) = aggregate_session-Kept sessions name c leaves in
      let (d', r', same') = aggregate_sessions-Kept sessions names d leaves in
      (d', rw r r', same' ∙ same)

  -- Whenever every aggregator returns at this job and time and leaves the counter at the key j as it
  -- finds it, collectCounters returns, and its counter at j is the sum modulo 2 ^ 64 of the agents'
  -- counters at j: neither the order of the agents nor that in which a map is iterated matters, and
  -- an agent whose call failed counts with whatever its reply holds.
  pub collect_counters-sum :
      (sessions : List (String × Session)) (replies : List (Counters × Option E))
      → AllLeave sessions
      → All (λ r. IsMap r.0) replies
      → (m : Counters) × (collect_counters api sessions job now replies ≡ returned m)
        × (get j m ≡ sum_of (λ r. get j r.0) replies % word_mod)
  unfolding collect_counters
  collect_counters-sum sessions replies leaves maps =
      let (m, r, same) =
        aggregate_sessions-Kept sessions job.session_names (add_replies replies []) leaves in
      let total = get-add_replies j replies [] 0 maps (get-empty j) in
      (m, r, same ∙ total ∙ rw zero-add)
