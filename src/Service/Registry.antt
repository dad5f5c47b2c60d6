-- ===== src/Service/Registry.antt =====
-- Agent registration in service/controllers.go: HandleAgentRegister, CheckExpiredAgents and what
-- HandleIndex shows. Times are nanoseconds, as int64; sort.Strings is a parameter.
use sigbench.Prelude.{
  ℕ, ◌≡◌, refl, String, Bool, false, List, [], ◌∷◌, Option, none, some, Result, ok, err, arith,
  str_eq, str_eq_iff, lookup, insert, has_key, if◌then◌else◌, sub64, lt64, length, Bool-cases, inl,
  inr,
}
use sigbench.Counters.{IsMap, lookup-missing}
use sigbench.Text.{join}
use sigbench.Service.Mux.{SigbenchMux, Response, status, bad_request}
use Prim.Native.String.{◌++◌ as ◌^^◌}

-- `form` is the value of "agentAddress" in the parsed form, `now` is time.Now().
unfoldable pub handle_agent_register :
    Result String String → ℕ → SigbenchMux → SigbenchMux × Response
handle_agent_register (err e) now c = (c, bad_request (◌^^◌ "Fail to parse form: " e))
handle_agent_register (ok address) now c =
    if str_eq address ""
    then (c, status 200)
    else (record c { reg_agent_addrs = insert address now c.reg_agent_addrs }, status 200)

-- 15 * time.Second
abbrev pub expiry : ℕ
expiry = 15000000000

-- `now.Sub(ts) > 15*time.Second`
abbrev pub is_expired : ℕ → ℕ → Bool
is_expired now ts = lt64 expiry (sub64 now ts)

-- The loop over the map that deletes the expired keys.
unfoldable pub remove_expired : ℕ → List (String × ℕ) → List (String × ℕ)
remove_expired now [] = []
remove_expired now ((address, ts) ∷ rest) =
    let kept = remove_expired now rest in if is_expired now ts then kept else (address, ts) ∷ kept

unfoldable pub check_expired_agents : ℕ → SigbenchMux → SigbenchMux
unfolding remove_expired
check_expired_agents now c = record c { reg_agent_addrs = remove_expired now c.reg_agent_addrs }

abbrev pub addresses : List (String × ℕ) → List String
addresses [] = []
addresses ((address, ts) ∷ rest) = address ∷ addresses rest

-- "agentsCount" and "agents" of the template's data.
unfoldable pub handle_index : (List String → List String) → SigbenchMux → ℕ × String
handle_index sort c =
    let agents = sort (addresses c.reg_agent_addrs) in (length agents, join agents)

insert-has_key :
    (k j : String) (v : ℕ) (m : List (String × ℕ))
    → str_eq k j ≡ false
    → has_key j (insert k v m) ≡ has_key j m
unfolding insert has_key
insert-has_key k j v [] h = ground arith
insert-has_key k j v ((i, w) ∷ m) h =
    ground (arith, str_eq_iff i k, str_eq_iff i j, str_eq_iff k j, insert-has_key k j v m)

pub insert-IsMap : (k : String) (v : ℕ) (m : List (String × ℕ)) → IsMap m → IsMap (insert k v m)
unfolding insert has_key
insert-IsMap k v [] h = (refl, tt)
insert-IsMap k v ((i, w) ∷ m) h = elim (Bool-cases (str_eq i k)) [
  | inl same ↦ rw same h
  | inr other ↦ rw other (
    ground (arith, h, insert-has_key k i v m, str_eq_iff i k, str_eq_iff k i),
    insert-IsMap k v m h.1,
  )
]

remove_expired-has_key :
    (now : ℕ) (j : String) (m : List (String × ℕ))
    → has_key j m ≡ false
    → has_key j (remove_expired now m) ≡ false
unfolding remove_expired has_key
remove_expired-has_key now j [] h = refl
remove_expired-has_key now j ((i, w) ∷ m) h = ground (arith, remove_expired-has_key now j m)

pub remove_expired-IsMap :
    (now : ℕ) (m : List (String × ℕ)) → IsMap m → IsMap (remove_expired now m)
unfolding remove_expired has_key
remove_expired-IsMap now [] h = tt
remove_expired-IsMap now ((i, w) ∷ m) h = elim (Bool-cases (is_expired now w)) [
  | inl old ↦ rw old (remove_expired-IsMap now m h.1)
  | inr new ↦ rw new (remove_expired-has_key now i m h.0, remove_expired-IsMap now m h.1)
]

-- What a check at `now` leaves of an agent's entry.
abbrev pub if_fresh : ℕ → Option ℕ → Option ℕ
if_fresh now none = none
if_fresh now (some ts) = if is_expired now ts then none else some ts

pub lookup-remove_expired :
    (now : ℕ) (j : String) (m : List (String × ℕ))
    → IsMap m
    → lookup j (remove_expired now m) ≡ if_fresh now (lookup j m)
unfolding remove_expired lookup
lookup-remove_expired now j [] h = refl
lookup-remove_expired now j ((i, w) ∷ m) h =
    ground (arith, lookup-remove_expired now j m h.1, lookup-missing i m h.0, str_eq_iff i j)
