-- ===== src/Service/Heartbeat.antt =====
-- Which agents service/controllers.go lists, over any sequence of registrations and expiry checks
-- (cmd/main.go registers every 5 seconds and checks every 5 seconds).
use sigbench.Prelude.{
  ℕ, ◌-◌, ◌≤◌, ◌<◌, ◌≡◌, ◌≢◌, ◌∙◌, String, false, List, [], ◌∷◌, Option, none, some, ok, arith,
  str_eq, str_eq_iff, lookup, lookup-insert, if◌then◌else◌, half_mod, Bool-cases, inl, inr,
}
use mathlib.Core.Logic.{◌↔◌}
use sigbench.Counters.{IsMap}
use sigbench.Service.Mux.{SigbenchMux}
use sigbench.Service.Registry.{
  handle_agent_register, check_expired_agents, expiry, is_expired, if_fresh, insert-IsMap,
  remove_expired-IsMap, lookup-remove_expired,
}

-- Times are not negative, and the check comes after the registration.
abbrev pub InOrder : ℕ → ℕ → Type 0
InOrder ts now = (ts ≤ now) × (now < half_mod)

is_expired_iff : (ts now : ℕ) → InOrder ts now → (is_expired now ts ≡ false) ↔ (now - ts ≤ expiry)
is_expired_iff ts now h = (λ e. ground arith, λ e. ground arith)

if_fresh-some :
    (now ts : ℕ) (o : Option ℕ)
    → InOrder ts now
    → (if_fresh now o ≡ some ts) ↔ ((o ≡ some ts) × (now - ts ≤ expiry))
if_fresh-some now ts none h = (λ e. cc, λ e. cc)
if_fresh-some now ts (some t) h = (
  λ e. (ground arith, ground (arith, is_expired_iff ts now h)),
  λ e. ground (arith, e, is_expired_iff ts now h),
)

-- Whenever the registered addresses form a map and the time ts of a registration is not later than
-- the check, the check leaves the address with the time ts exactly if it had that time and at most 15
-- seconds have passed.
check_expired_agents_iff :
    (c : SigbenchMux) (now ts : ℕ) (address : String)
    → IsMap c.reg_agent_addrs
    → InOrder ts now
    → (lookup address (check_expired_agents now c).reg_agent_addrs ≡ some ts)
      ↔ ((lookup address c.reg_agent_addrs ≡ some ts) × (now - ts ≤ expiry))
unfolding check_expired_agents
check_expired_agents_iff c now ts address m h =
    rw (lookup-remove_expired now address c.reg_agent_addrs m)
      (if_fresh-some now ts (lookup address c.reg_agent_addrs) h)

pub data RegistryEvent : Type 0 where
  registers : String → ℕ → RegistryEvent
  checks : ℕ → RegistryEvent

unfoldable pub run_registry : List RegistryEvent → SigbenchMux → SigbenchMux
run_registry [] c = c
run_registry (registers address now ∷ es) c =
    run_registry es (handle_agent_register (ok address) now c).0
run_registry (checks now ∷ es) c = run_registry es (check_expired_agents now c)

-- The agent's newest registration, `last` before the events.
abbrev pub last_seen : String → ℕ → List RegistryEvent → ℕ
last_seen a last [] = last
last_seen a last (registers b now ∷ es) = last_seen a (if str_eq b a then now else last) es
last_seen a last (checks now ∷ es) = last_seen a last es

-- At every check, the agent's newest registration is at most 15 seconds old.
abbrev pub IsAlive : String → ℕ → List RegistryEvent → Type 0
IsAlive a last [] = Unit {0}
IsAlive a last (registers b now ∷ es) = IsAlive a (if str_eq b a then now else last) es
IsAlive a last (checks now ∷ es) = InOrder last now × (now - last ≤ expiry) × IsAlive a last es

pub register-IsMap :
    (b : String) (now : ℕ) (c : SigbenchMux)
    → IsMap c.reg_agent_addrs
    → IsMap (handle_agent_register (ok b) now c).0.reg_agent_addrs
unfolding handle_agent_register
register-IsMap b now c m = elim (Bool-cases (str_eq b "")) [
  | inl e ↦ rw e m
  | inr e ↦ rw e (insert-IsMap b now c.reg_agent_addrs m)
]

lookup-register :
    (a b : String) (now : ℕ) (c : SigbenchMux)
    → a ≢ ""
    → lookup a (handle_agent_register (ok b) now c).0.reg_agent_addrs
      ≡ (if str_eq b a then some now else lookup a c.reg_agent_addrs)
unfolding handle_agent_register
lookup-register a b now c h =
    ground (arith, str_eq_iff b "", str_eq_iff b a, lookup-insert b a now c.reg_agent_addrs)

-- An agent whose address is not empty and that is registered stays registered, with the time of its
-- newest registration, over any sequence of registrations (by any agents) and checks in which no check
-- comes more than 15 seconds after that agent's newest registration before it.
pub run_registry-keeps :
    (a : String) (last : ℕ) (es : List RegistryEvent) (c : SigbenchMux)
    → a ≢ ""
    → IsMap c.reg_agent_addrs
    → lookup a c.reg_agent_addrs ≡ some last
    → IsAlive a last es
    → lookup a (run_registry es c).reg_agent_addrs ≡ some (last_seen a last es)
unfolding run_registry
run_registry-keeps a last [] c h m e alive = e
run_registry-keeps a last (registers b now ∷ es) c h m e alive =
    run_registry-keeps a (if str_eq b a then now else last) es
      (handle_agent_register (ok b) now c).0 h (register-IsMap b now c m)
      (lookup-register a b now c h ∙ ground (arith, e)) alive
run_registry-keeps a last (checks now ∷ es) c h m e alive =
    run_registry-keeps a last es (check_expired_agents now c) h
      (unfold check_expired_agents in remove_expired-IsMap now c.reg_agent_addrs m)
      ((check_expired_agents_iff c now last a m alive.0).1 (e, alive.1)) alive.2
