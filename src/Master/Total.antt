-- ===== src/Master/Total.antt =====
-- What collectCounters of master/master_controller.go makes of the replies that ListCounters of
-- agent/agent_controller.go gives: the counters of every session on every agent.
use sigbench.Prelude.{
  ℕ, ◌%◌, ◌≡◌, ◌∙◌, refl, String, List, [], ◌∷◌, Option, none, returned, arith, map, lookup, insert,
  has_key, if◌then◌else◌, word_mod, sum_of, All, Bool-cases, Option-cases, inl, inr, add64,
}
use sigbench.Base.{Job}
use sigbench.Counters.{Counters, IsMap, get, add_counters, set_counters}
use sigbench.Sessions.Api.{SessionApi}
use sigbench.Agent.Control.{list_counters, list_session_counters}
use sigbench.Agent.Report.{session_value, list_counters-sum}
use sigbench.Master.Collect.{collect_counters, collect_counters-sum, AllLeave}
use sigbench.Service.Registry.{insert-IsMap}

add_counters-IsMap : (acc m : Counters) → IsMap acc → IsMap (add_counters acc m)
unfolding add_counters
add_counters-IsMap acc [] h = h
add_counters-IsMap acc ((k, v) ∷ m) h =
    add_counters-IsMap (insert k (add64 (get k acc) v) acc) m
      (insert-IsMap k (add64 (get k acc) v) acc h)

set_counters-IsMap : (acc m : Counters) → IsMap acc → IsMap (set_counters acc m)
unfolding set_counters
set_counters-IsMap acc [] h = h
set_counters-IsMap acc ((k, v) ∷ m) h =
    set_counters-IsMap (insert k v acc) m (insert-IsMap k v acc h)

-- Sums of numbers that agree modulo 2 ^ 64.
sum_of-mod :
    {A B : Type 0} (P : A → Type 0) (h : A → B) (f : B → ℕ) (g : A → ℕ)
    → ((a : A) → P a → f (h a) % word_mod ≡ g a % word_mod)
    → (xs : List A) → All P xs
    → sum_of f (map h xs) % word_mod ≡ sum_of g xs % word_mod
sum_of-mod P h f g same [] p = refl
sum_of-mod P h f g same (x ∷ xs) p = omega (arith, same x p.0, sum_of-mod P h f g same xs p.1)

All-map :
    {A B : Type 0} (Q : B → Type 0) (h : A → B)
    → ((a : A) → Q (h a))
    → (xs : List A) → All Q (map h xs)
All-map Q h q [] = tt
All-map Q h q (x ∷ xs) = (q x, All-map Q h q xs)

module _ {F E : Type 0} (api : SessionApi F E) where
  open api use {Session, counters}

  -- An agent's sessions, and what getSystemCounters gives there.
  pub record AgentState : Type 0 where
    pub sessions : List (String × Session)
    pub system : Counters

  list_session_counters-IsMap :
      (sessions : List (String × Session)) (names : List String) (acc : Counters)
      → IsMap acc
      → IsMap (list_session_counters api sessions names acc)
  unfolding list_session_counters
  list_session_counters-IsMap sessions [] acc h = h
  list_session_counters-IsMap sessions (name ∷ names) acc h =
      elim (Option-cases (lookup name sessions)) [
        | inl e ↦ rw e (list_session_counters-IsMap sessions names acc h)
        | inr (s, e) ↦ rw e (
            list_session_counters-IsMap sessions names (add_counters acc (counters s))
              (add_counters-IsMap acc (counters s) h))
      ]

  list_counters-IsMap :
      (sessions : List (String × Session)) (names : List String) (system : Counters)
      → IsMap (list_counters api sessions names system)
  unfolding list_counters
  list_counters-IsMap sessions names system =
      set_counters-IsMap (list_session_counters api sessions names []) system
        (list_session_counters-IsMap sessions names [] tt)

  -- An agent's reply to ListCounters.
  abbrev pub reply : List String → AgentState → Counters × Option E
  reply names a = (list_counters api a.sessions names a.system, none)

  -- What an agent has at a key: its system counter, if there is one, and else its sessions' counters.
  abbrev pub agent_value : List String → String → AgentState → ℕ
  agent_value names j a =
      if has_key j a.system then get j a.system else sum_of (session_value api a.sessions j) names

  reply-value :
      (names : List String) (j : String) (a : AgentState)
      → IsMap a.system
      → get j (reply names a).0 % word_mod ≡ agent_value names j a % word_mod
  reply-value names j a h = elim (Bool-cases (has_key j a.system)) [
    | inl e ↦ ground (arith, e, list_counters-sum api a.sessions names a.system j h)
    | inr e ↦ ground (arith, e, list_counters-sum api a.sessions names a.system j h)
  ]

  -- If every aggregator returns at this job and time and leaves the counter at the key j as it finds it,
  -- and every agent answers with its ListCounters, then collectCounters returns, and its counter at j is
  -- modulo 2 ^ 64 the sum over the agents of what each has there: its system counter, if it has one of
  -- that key, and else the sum over the job's session names of the counters of the sessions they name.
  pub collect_counters-total :
      (job : Job F) (now : ℕ) (j : String) (sessions : List (String × Session))
      (agents : List AgentState)
      → AllLeave api job now j sessions
      → All (λ a. IsMap a.system) agents
      → (m : Counters) × (collect_counters api sessions job now
            (map (reply job.session_names) agents)
          ≡ returned m)
        × (get j m ≡ sum_of (agent_value job.session_names j) agents % word_mod)
  collect_counters-total job now j sessions agents leaves systems =
      let names = job.session_names in
      let (m, r, total) =
        collect_counters-sum api job now j sessions (map (reply names) agents) leaves (
          All-map (λ r. IsMap r.0) (reply names)
            (λ a. list_counters-IsMap a.sessions names a.system) agents) in
      (
        m,
        r,
        total
            ∙ sum_of-mod (λ a. IsMap a.system) (reply names) (λ r. get j r.0) (agent_value names j)
                (λ a h. reply-value names j a h) agents systems,
      )
