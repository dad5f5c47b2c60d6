-- ===== src/Master/Agents.antt =====
-- NewAgentDelegate of agent/agent_delegate.go and RegisterAgent of master/master_controller.go, beside
-- what Service/Mux keeps of them. rpc.DialHTTP is a parameter.
use sigbench.Prelude.{
  ◌≡◌, ◌∙◌, refl, ap, sym, String, List, [], ◌∷◌, ◌++◌, map, Option, none, some, Result, ok, err,
  ◌⊎◌, inl, inr,
}
use sigbench.Service.Mux.{SigbenchMux, Controller, add_agent, register_agents}

pub record AgentDelegate (C : Type 0) : Type 0 where
  pub address : String
  pub client : C

module _ {C : Type 0} (dial_http : String → Result String C) where
  unfoldable pub new_agent_delegate : String → Result String (AgentDelegate C)
  new_agent_delegate address = elim (dial_http address) [
    | err e ↦ err e
    | ok client ↦ ok (record { address = address; client = client })
  ]

  -- The new c.Agents, and the error.
  unfoldable pub register_agent :
      String → List (AgentDelegate C) → List (AgentDelegate C) × Option String
  unfolding new_agent_delegate
  register_agent address agents = elim (new_agent_delegate address) [
    | err e ↦ (agents, some e)
    | ok delegate ↦ (agents ++ delegate ∷ [], none)
  ]

  -- The loop of HandleJobCreate: the first error ends it.
  unfoldable pub register_each :
      List String → List (AgentDelegate C) → List (AgentDelegate C) × Option String
  unfolding register_agent
  register_each [] agents = (agents, none)
  register_each (address ∷ rest) agents =
      let later = register_each rest (register_agent address agents).0 in
      elim (register_agent address agents).1 [
        | some e ↦ ((register_agent address agents).0, some e)
        | none ↦ later
      ]

  -- The error of NewAgentDelegate, if it has one.
  abbrev pub dial_error : String → Option String
  dial_error address = elim (dial_http address) [ err e ↦ some e | ok client ↦ none ]

  abbrev pub delegate_addresses : List (AgentDelegate C) → List String
  delegate_addresses agents = map (λ (d : AgentDelegate C). d.address) agents

  -- The service's controller has the addresses of the delegates.
  abbrev pub Keeps : SigbenchMux → List (AgentDelegate C) → Type 0
  Keeps c agents =
      (m : Controller) × (c.controller ≡ some m) × (m.agents ≡ delegate_addresses agents)

  delegate_addresses-append :
      (agents : List (AgentDelegate C)) (d : AgentDelegate C)
      → delegate_addresses (agents ++ d ∷ []) ≡ delegate_addresses agents ++ d.address ∷ []
  delegate_addresses-append [] d = refl
  delegate_addresses-append (a ∷ agents) d =
      ap (λ l. a.address ∷ l) (delegate_addresses-append agents d)

  Dial-cases :
      (a : String) → ((e : String) × (dial_http a ≡ err e)) ⊎ ((k : C) × (dial_http a ≡ ok k))
  Dial-cases a = cases (dial_http a)
    where
      cases : (r : Result String C) → ((e : String) × (r ≡ err e)) ⊎ ((k : C) × (r ≡ ok k))
      cases (err e) = inl (e, refl)
      cases (ok k) = inr (k, refl)

  register_agent-err :
      (a e : String) (agents : List (AgentDelegate C))
      → dial_http a ≡ err e
      → register_agent a agents ≡ (agents, some e)
  unfolding register_agent new_agent_delegate
  register_agent-err a e agents p = rw (p, register_agent, new_agent_delegate) refl

  register_agent-ok :
      (a : String) (k : C) (agents : List (AgentDelegate C))
      → dial_http a ≡ ok k
      → register_agent a agents ≡ (agents ++ record { address = a; client = k } ∷ [], none)
  unfolding register_agent new_agent_delegate
  register_agent-ok a k agents p = rw (p, register_agent, new_agent_delegate) refl

  -- Whenever the service's controller has the addresses of the delegates, then it has them again behind
  -- the registration of any agents, with the same error: both stop at the first agent that cannot be
  -- dialled, and keep those before it in their order.
  pub register_each-Keeps :
      (all : List String) (c : SigbenchMux) (agents : List (AgentDelegate C))
      → Keeps c agents
      → Keeps (register_agents dial_error all c).0 (register_each all agents).0
        × ((register_agents dial_error all c).1 ≡ (register_each all agents).1)
  unfolding register_each register_agents
  register_each-Keeps [] c agents k = (k, refl)
  register_each-Keeps (a ∷ rest) c agents k = elim (Dial-cases a) [
    | inl (e, p) ↦ rw (p, register_agent-err a e agents p, register_agents, register_each) (k, refl)
    | inr (client, p) ↦
        let d : AgentDelegate C = record { address = a; client = client } in
        let (m, held, same) = k in
        let kept : Keeps (add_agent a c) (agents ++ d ∷ []) = (
          record m { agents = m.agents ++ a ∷ [] },
          unfold add_agent in rw held refl,
          ap (λ l. l ++ a ∷ []) same ∙ sym (delegate_addresses-append agents d),
        ) in
        rw (p, register_agent-ok a client agents p, register_agents, register_each)
          (register_each-Keeps rest (add_agent a c) (agents ++ d ∷ []) kept)
  ]
