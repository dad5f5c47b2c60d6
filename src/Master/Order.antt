-- ===== src/Master/Order.antt =====
-- Neither the order of the agents nor that in which Go iterates a map matters to collectCounters of
-- master/master_controller.go: counter maps up to what they show at every key.
use mathlib.Core.Quot
use mathlib.Core.Quot.{Quot}
use native.Mathlib.Nat.{ℕ_set}
use sigbench.Prelude.{ℕ, ◌%◌, ◌≡◌, String, List, Option, map, word_mod}
use sigbench.Counters.{Counters, get}

-- The same int64 at every key.
abbrev pub SameCounters : Counters → Counters → Type 0
SameCounters m n = (j : String) → get j m % word_mod ≡ get j n % word_mod

abbrev pub CounterView : Type 0
CounterView = Quot SameCounters

abbrev pub view : Counters → CounterView
view = Quot.mk

-- What a view shows at a key.
unfoldable pub shown : String → CounterView → ℕ
shown j = Quot.lift ℕ_set (λ m. get j m % word_mod) (λ m n h. h j)

module _ {E : Type 0} where
  -- The replies as views, in their order.
  abbrev pub views : List (Counters × Option E) → List CounterView
  views rs = map (λ r. view r.0) rs
