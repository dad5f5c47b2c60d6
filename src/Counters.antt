-- ===== src/Counters.antt =====
-- The counter maps that sessions, agents and the master pass on: `map[string]int64`, the loop
-- `for k, v := range m { acc[k] = acc[k] + v }` of agent/agent_controller.go and
-- master/master_controller.go, and what it makes of every key. A Go map is iterated in any order:
-- the list is one such order, and a map is a list whose keys differ.
use sigbench.Prelude.{
  ℕ, ◌+◌, ◌%◌, ◌≡◌, refl, false, String, List, [], ◌∷◌, Option, some, none, arith, str_eq,
  str_eq_iff, lookup, insert, lookup-insert, has_key, if◌then◌else◌, Bool-cases, inl, inr, ◌∙◌,
  add64, word_mod,
}

abbrev pub Counters : Type 0
Counters = List (String × ℕ)

-- `m[k]`: 0 for a key that is missing.
abbrev pub or_zero : Option ℕ → ℕ
or_zero none = 0
or_zero (some v) = v

abbrev pub get : String → Counters → ℕ
get k m = or_zero (lookup k m)

abbrev pub IsMap : Counters → Type 0
IsMap [] = Unit {0}
IsMap ((k, v) ∷ m) = (has_key k m ≡ false) × IsMap m

-- `for k, v := range m { acc[k] = acc[k] + v }`
unfoldable pub add_counters : Counters → Counters → Counters
add_counters acc [] = acc
add_counters acc ((k, v) ∷ m) = add_counters (insert k (add64 (get k acc) v) acc) m

-- `for k, v := range m { acc[k] = v }`
unfoldable pub set_counters : Counters → Counters → Counters
set_counters acc [] = acc
set_counters acc ((k, v) ∷ m) = set_counters (insert k v acc) m

pub get-empty : (j : String) → get j [] ≡ 0
unfolding lookup
get-empty j = refl

pub get-insert :
    (k j : String) (v : ℕ) (m : Counters)
    → get j (insert k v m) ≡ (if str_eq k j then v else get j m)
get-insert k j v m = ground (arith, lookup-insert k j v m)

pub lookup-missing : (k : String) (m : Counters) → has_key k m ≡ false → lookup k m ≡ none
unfolding lookup has_key
lookup-missing k [] h = refl
lookup-missing k ((j, v) ∷ m) h = ground (arith, lookup-missing k m)

-- Adding a map adds its value at every key, on the sum kept modulo 2 ^ 64.
pub get-add_counters :
    (j : String) (acc m : Counters) (s : ℕ)
    → IsMap m
    → get j acc ≡ s % word_mod
    → get j (add_counters acc m) ≡ (s + get j m) % word_mod
unfolding add_counters lookup
get-add_counters j acc [] s d h = omega (arith, h)
get-add_counters j acc ((k, v) ∷ m) s d h = elim (Bool-cases (str_eq k j)) [
  | inl here ↦
      let same : k ≡ j = (str_eq_iff k j).0 here in
      let missing : lookup j m ≡ none = rw (← same) (lookup-missing k m d.0) in
      let step =
        get-add_counters j (insert k (add64 (get k acc) v) acc) m (s + v) d.1
          (rw (get-insert k j (add64 (get k acc) v) acc, here, same, h) (omega arith)) in
      rw here (step ∙ rw missing (omega arith))
  | inr there ↦ rw there (
      get-add_counters j (insert k (add64 (get k acc) v) acc) m s d.1
        (rw (get-insert k j (add64 (get k acc) v) acc, there) h))
]

-- Writing a map over another one shows the second's values, and elsewhere the first's.
pub lookup-set_counters :
    (j : String) (acc m : Counters)
    → IsMap m
    → lookup j (set_counters acc m) ≡ (if has_key j m then lookup j m else lookup j acc)
unfolding set_counters lookup has_key
lookup-set_counters j acc [] d = refl
lookup-set_counters j acc ((k, v) ∷ m) d = ground (
  arith,
  lookup-set_counters j (insert k v acc) m d.1,
  lookup-insert k j v acc,
  str_eq_iff k j,
  lookup-missing k m d.0,
)
