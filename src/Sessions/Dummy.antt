-- ===== src/Sessions/Dummy.antt =====
-- DummySession of sessions/session.go, which SessionMap does not list.
use sigbench.Prelude.{ℕ, suc, zero, ◌*◌, ◌≡◌, refl, List, [], ◌∷◌, arith, sum_of}
use sigbench.Counters.{Counters}
use sigbench.Sessions.Script.{Script, ◌>>◌, add, Interleavings, sum_of-Interleavings}

pub data Field : Type 0 where
  counter_a counter_b : Field

unfoldable pub setup : Field → ℕ
setup f = 0

unfoldable pub execute : Script Field (Unit {0})
execute = add counter_a 1 >> add counter_b 2

unfoldable pub counters : (Field → ℕ) → Counters
counters s = ("a", s counter_a) ∷ ("b", s counter_b) ∷ []

-- The additions of so many users' calls.
abbrev calls : ℕ → List (List (Field × ℕ))
calls zero = []
calls (suc n) = execute.0 ∷ calls n

abbrev to_a : Field × ℕ → ℕ
to_a (counter_a, d) = d
to_a (_, d) = 0

abbrev to_b : Field × ℕ → ℕ
to_b (counter_b, d) = d
to_b (_, d) = 0

calls-sums :
    (n : ℕ) → (sum_of (sum_of to_a) (calls n) ≡ n) × (sum_of (sum_of to_b) (calls n) ≡ 2 * n)
unfolding execute
calls-sums zero = (refl, refl)
calls-sums (suc n) = (omega (arith, (calls-sums n).0), omega (arith, (calls-sums n).1))

-- Over every schedule of any number of calls, each counts one in "a" and two in "b".
execute-sums :
    (n : ℕ) (adds : List (Field × ℕ))
    → Interleavings (calls n) adds
    → (sum_of to_a adds ≡ n) × (sum_of to_b adds ≡ 2 * n)
execute-sums n adds i = (
  omega (arith, sum_of-Interleavings to_a i, (calls-sums n).0),
  omega (arith, sum_of-Interleavings to_b i, (calls-sums n).1),
)
