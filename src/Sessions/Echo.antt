-- ===== src/Sessions/Echo.antt =====
-- The counters that sessions/webpubsub_echo.go and sessions/signalr_core_echo.go have in common, and how
-- a call of their Execute settles them.
use sigbench.Prelude.{ℕ, ◌+◌, ◌≡◌, List, [], ◌∷◌, ◌++◌, arith, sum_of, minus_one, word_mod}
use sigbench.Sessions.Script.{
  Ending, value, error, crash, blocked, Script, ◌>>◌, add, deferred, defer,
}
use sigbench.Sessions.Script.Rules.{Weighs, Steady, sum_of-append}

-- cntInProgress, cntError and cntSuccess.
pub data Field : Type 0 where
  in_progress errors success : Field

-- `atomic.AddInt64(&s.cntInProgress, 1)`, its deferred decrement, and the body.
abbrev pub tracked : {A : Type 0} → Script Field A → Script Field A
tracked body = do add in_progress 1; defer in_progress minus_one body

abbrev pub to_in_progress : Field × ℕ → ℕ
to_in_progress (in_progress, d) = d
to_in_progress (_, d) = 0

abbrev pub to_errors : Field × ℕ → ℕ
to_errors (errors, d) = d
to_errors (_, d) = 0

abbrev pub to_success : Field × ℕ → ℕ
to_success (success, d) = d
to_success (_, d) = 0

-- The call returned nil and counted one success, or returned an error and counted one error; and it
-- took back what it had added to cntInProgress. It neither panics nor waits for ever.
abbrev pub Settles : List (Field × ℕ) → Ending (Unit {0}) → Type 0
Settles adds (value _) =
    (sum_of to_in_progress adds ≡ word_mod)
    × (sum_of to_errors adds ≡ 0)
    × (sum_of to_success adds ≡ 1)
Settles adds (error _) =
    (sum_of to_in_progress adds ≡ word_mod)
    × (sum_of to_errors adds ≡ 1)
    × (sum_of to_success adds ≡ 0)
Settles adds (crash _) = ⊥
Settles adds blocked = ⊥

around :
    (w : Field × ℕ → ℕ) (adds : List (Field × ℕ))
    → sum_of w ((in_progress, 1) ∷ (adds ++ (in_progress, minus_one) ∷ []))
      ≡ w (in_progress, 1) + sum_of w adds + w (in_progress, minus_one)
around w adds = omega (arith, sum_of-append w adds ((in_progress, minus_one) ∷ []))

settled :
    (adds : List (Field × ℕ)) (r : Ending (Unit {0}))
    → Weighs to_in_progress ⊥ 0 0 adds r
    → Weighs to_errors ⊥ 0 1 adds r
    → Weighs to_success ⊥ 1 0 adds r
    → Settles ((in_progress, 1) ∷ (adds ++ deferred in_progress minus_one r)) r
settled adds (value _) p e s = (
  omega (arith, around to_in_progress adds, p),
  omega (arith, around to_errors adds, e),
  omega (arith, around to_success adds, s),
)
settled adds (error _) p e s = (
  omega (arith, around to_in_progress adds, p),
  omega (arith, around to_errors adds, e),
  omega (arith, around to_success adds, s),
)
settled adds (crash _) p e s = p
settled adds blocked p e s = p

-- A body that counts one success before it returns nil, and one error before it returns one, whatever
-- the weights.
pub tracked-Settles :
    (body : Script Field (Unit {0}))
    → ((w : Field × ℕ → ℕ) → Steady w ⊥ (w (success, 1)) (w (errors, 1)) body)
    → Settles (tracked body).0 (tracked body).1
tracked-Settles body h = settled body.0 body.1 (h to_in_progress) (h to_errors) (h to_success)
