-- ===== src/Service/Expiry.antt =====
-- What the registrations and expiry checks of service/controllers.go promise, free of the map that they
-- keep: for each address the time of its registration, if it counts as an agent.
use sigbench.Prelude.{
  ap, ℕ, ◌-◌, ◌≤◌, ◌<◌, ◌≡◌, ◌∙◌, refl, String, List, [], ◌∷◌, Option, none, some, ok, arith,
  str_eq, str_eq_iff, lookup, lookup-insert, ltb, if◌then◌else◌, half_mod,
}
use sigbench.Counters.{IsMap}
use sigbench.Service.Mux.{SigbenchMux, new_mux, ServiceConfig}
use sigbench.Service.Registry.{
  handle_agent_register, check_expired_agents, expiry, if_fresh, remove_expired-IsMap,
  lookup-remove_expired,
}
use sigbench.Service.Heartbeat.{RegistryEvent, registers, checks, run_registry, register-IsMap}

-- The time of an address's registration.
abbrev pub Agents : Type 0
Agents = String → Option ℕ

-- A registration counts for 15 seconds.
abbrev pub still_alive : ℕ → Option ℕ → Option ℕ
still_alive now none = none
still_alive now (some ts) = if ltb expiry (now - ts) then none else some ts

abbrev pub registered : String → ℕ → Agents → Agents
registered b now agents a =
    if str_eq b "" then agents a else (if str_eq b a then some now else agents a)

-- The events, as the service promises them.
abbrev pub promised : List RegistryEvent → Agents → Agents
promised [] agents = agents
promised (registers b now ∷ es) agents = promised es (registered b now agents)
promised (checks now ∷ es) agents = promised es (λ a. still_alive now (agents a))

-- The clock does not go back, from the time `t` on.
abbrev pub IsOrdered : ℕ → List RegistryEvent → Type 0
IsOrdered t [] = Unit {0}
IsOrdered t (registers b now ∷ es) = (t ≤ now) × (now < half_mod) × IsOrdered now es
IsOrdered t (checks now ∷ es) = (t ≤ now) × (now < half_mod) × IsOrdered now es

-- The map implements the promise, with no time behind `t`.
record Implements (t : ℕ) (c : SigbenchMux) (agents : Agents) : Type 0 where
  is_map : IsMap c.reg_agent_addrs
  same : (a : String) → lookup a c.reg_agent_addrs ≡ agents a
  past : (a : String) (ts : ℕ) → agents a ≡ some ts → ts ≤ t

lookup-registers :
    (a b : String) (now : ℕ) (c : SigbenchMux)
    → lookup a (handle_agent_register (ok b) now c).0.reg_agent_addrs
      ≡ registered b now (λ x. lookup x c.reg_agent_addrs) a
unfolding handle_agent_register
lookup-registers a b now c =
    ground (arith, str_eq_iff b "", str_eq_iff b a, lookup-insert b a now c.reg_agent_addrs)

registered-same :
    (a b : String) (now : ℕ) (f g : Agents)
    → f a ≡ g a
    → registered b now f a ≡ registered b now g a
registered-same a b now f g h = rw h refl

fresh_alive :
    (t now : ℕ) (o : Option ℕ)
    → ((ts : ℕ) → o ≡ some ts → ts ≤ t)
    → t ≤ now
    → now < half_mod
    → if_fresh now o ≡ still_alive now o
fresh_alive t now none past le lt = refl
fresh_alive t now (some ts) past le lt = ground (arith, past ts refl)

alive-some : (now ts : ℕ) (o : Option ℕ) → still_alive now o ≡ some ts → o ≡ some ts
alive-some now ts none h = h
alive-some now ts (some u) h = ground (arith, h)

register-Implements :
    (t now : ℕ) (b : String) (c : SigbenchMux) (agents : Agents)
    → t ≤ now
    → Implements t c agents
    → Implements now (handle_agent_register (ok b) now c).0 (registered b now agents)
register-Implements t now b c agents le i = record {
  is_map = register-IsMap b now c i.is_map;
  same = λ a.
      lookup-registers a b now c
      ∙ registered-same a b now (λ x. lookup x c.reg_agent_addrs) agents (i.same a);
  past = λ a ts h. past_registered a ts h;
}
  where
    past_registered : (a : String) (ts : ℕ) → registered b now agents a ≡ some ts → ts ≤ now
    past_registered a ts h = grind (arith, i.past)

check-Implements :
    (t now : ℕ) (c : SigbenchMux) (agents : Agents)
    → t ≤ now
    → now < half_mod
    → Implements t c agents
    → Implements now (check_expired_agents now c) (λ a. still_alive now (agents a))
unfolding check_expired_agents
check-Implements t now c agents le lt i = record {
  is_map = remove_expired-IsMap now c.reg_agent_addrs i.is_map;
  same = λ a.
      lookup-remove_expired now a c.reg_agent_addrs i.is_map
      ∙ ap (if_fresh now) (i.same a)
      ∙ fresh_alive t now (agents a) (i.past a) le lt;
  past = λ a ts h. omega (arith, i.past a ts (alive-some now ts (agents a) h), le);
}

run-Implements :
    (t : ℕ) (es : List RegistryEvent) (c : SigbenchMux) (agents : Agents)
    → IsOrdered t es
    → Implements t c agents
    → (a : String) → lookup a (run_registry es c).reg_agent_addrs ≡ promised es agents a
unfolding run_registry
run-Implements t [] c agents o i a = i.same a
run-Implements t (registers b now ∷ es) c agents o i a =
    run-Implements now es (handle_agent_register (ok b) now c).0 (registered b now agents) o.2
      (register-Implements t now b c agents o.0 i) a
run-Implements t (checks now ∷ es) c agents o i a =
    run-Implements now es (check_expired_agents now c) (λ x. still_alive now (agents x)) o.2
      (check-Implements t now c agents o.0 o.1 i) a

-- A new service whose clock does not go back keeps, over any sequence of registrations and expiry checks,
-- a map that says for every address exactly what is promised: each registration of an address that is
-- not empty sets its time, and each check takes out the addresses whose time is more than 15 seconds
-- ago, and no other.
pub run_registry-promised :
    (config : ServiceConfig) (es : List RegistryEvent)
    → IsOrdered 0 es
    → (a : String)
    → lookup a (run_registry es (new_mux config)).reg_agent_addrs ≡ promised es (λ x. none) a
unfolding new_mux lookup
run_registry-promised config es o a =
    run-Implements 0 es (new_mux config) (λ x. none) o
      (record { is_map = tt; same = λ x. refl; past = λ x ts h. cc }) a
