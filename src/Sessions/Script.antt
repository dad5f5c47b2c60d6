-- ===== src/Sessions/Script.antt =====
-- How a session's methods are written down. A session's counters are int64 fields that are changed by
-- atomic.AddInt64 alone: a call is the list of its additions, in order, with how it ends. The fields of
-- a session are the constructors of a type `C`.
pub mod Rules
use sigbench.Prelude.{
  ℕ, ◌+◌, ◌%◌, ◌≡◌, ◌∙◌, refl, String, Bool, true, false, List, [], ◌∷◌, ◌++◌, map, Option, none,
  some, Panic, Outcome, returned, panicked, running, index_out_of_range, Result, ok, err, arith,
  add64, word_mod, minus_one, sum_of, IsWord, if◌then◌else◌,
}
use native.Mathlib.Nat.{add_assoc}
use mathlib.Core.Logic.{ite}

-- A call returns a value, returns an error, panics, or waits for ever.
pub data Ending {ℓ} (A : Type ℓ) : Type ℓ where
  value : A → Ending A
  error : String → Ending A
  crash : Panic → Ending A
  blocked : Ending A

abbrev pub Adds : Type 0 → Type 0
Adds C = List (C × ℕ)

abbrev pub Script : Type 0 → Type 0 → Type 0
Script C A = List (C × ℕ) × Ending A

module _ {C : Type 0} where
  abbrev pub pure : {A : Type 0} → A → Script C A
  pure a = ([], value a)

  abbrev pub after : {A B : Type 0} → List (C × ℕ) → Ending A → (A → Script C B) → Script C B
  after adds (value a) f = (adds ++ (f a).0, (f a).1)
  after adds (error e) f = (adds, error e)
  after adds (crash p) f = (adds, crash p)
  after adds blocked f = (adds, blocked)

  infixl 5 ◌>>=◌ ◌>>◌
  abbrev pub ◌>>=◌ : {A B : Type 0} → Script C A → (A → Script C B) → Script C B
  m >>= f = after m.0 m.1 f

  abbrev pub ◌>>◌ : {B : Type 0} → Script C (Unit {0}) → Script C B → Script C B
  m >> k = m >>= λ _. k

  -- `atomic.AddInt64(&s.c, d)`
  abbrev pub add : C → ℕ → Script C (Unit {0})
  add c d = ((c, d) ∷ [], value tt)

  abbrev pub fail : {A : Type 0} → String → Script C A
  fail e = ([], error e)

  abbrev pub panic : {A : Type 0} → Panic → Script C A
  panic p = ([], crash p)

  abbrev pub block : {A : Type 0} → Script C A
  block = ([], blocked)

  -- A panic of a helper is one of the call.
  abbrev pub or_crash : {A : Type 0} → Outcome A → Script C A
  or_crash (returned a) = pure a
  or_crash (panicked p) = panic p
  or_crash running = block

  -- An index within a slice, or not.
  abbrev pub or_out_of_range : {A : Type 0} → Option A → Script C A
  or_out_of_range none = panic index_out_of_range
  or_out_of_range (some a) = pure a

  -- `x, err := …; if err != nil { s.logError(…); return err }`, where `c` counts the errors.
  abbrev pub try : {A : Type 0} → C → Result String A → Script C A
  try c (ok a) = pure a
  try c (err e) = ((c, 1) ∷ [], error e)

  -- What the deferred addition of a call does: nothing while the call waits.
  abbrev pub deferred : {A : Type 0} → C → ℕ → Ending A → List (C × ℕ)
  deferred c d (value a) = (c, d) ∷ []
  deferred c d (error e) = (c, d) ∷ []
  deferred c d (crash p) = (c, d) ∷ []
  deferred c d blocked = []

  -- `defer atomic.AddInt64(&s.c, d)`
  abbrev pub defer : {A : Type 0} → C → ℕ → Script C A → Script C A
  defer c d m = (m.0 ++ deferred c d m.1, m.1)

-- `if err != nil { s.logError(…); return err }` behind a call: an error counts.
abbrev pub logged : {C A : Type 0} → C → Script C A → Script C A
logged c m = (m.0 ++ elim m.1 [ error e ↦ (c, 1) ∷ [] | _ ↦ [] ], m.1)

-- A script over some of a session's fields.
abbrev pub rename : {C D A : Type 0} → (C → D) → Script C A → Script D A
rename f m = (map (λ p. (f p.0, p.1)) m.0, m.1)

-- The call came back: it is not blocked.
abbrev pub Returns : {A : Type 0} → Ending A → Type 0
Returns (value a) = Unit {0}
Returns (error e) = Unit {0}
Returns (crash p) = ⊥
Returns blocked = ⊥

-- The fields of a session, and what additions make of them.
module _ {C : Type 0} (same : Discrete C) where
  abbrev pub delta : C → C × ℕ → ℕ
  delta f (c, d) = ite (same c f) d 0

  -- What a list of additions adds to a field.
  abbrev pub total : C → List (C × ℕ) → ℕ
  total f = sum_of (delta f)

  unfoldable pub run_adds : List (C × ℕ) → (C → ℕ) → C → ℕ
  run_adds [] s = s
  run_adds ((c, d) ∷ adds) s = run_adds adds (λ f. ite (same c f) (add64 (s f) d) (s f))

  pub run_adds-total :
      (adds : List (C × ℕ)) (s : C → ℕ) (f : C) (n : ℕ)
      → s f ≡ n % word_mod
      → run_adds adds s f ≡ (n + total f adds) % word_mod
  unfolding run_adds
  run_adds-total [] s f n h = omega (arith, h)
  run_adds-total ((c, d) ∷ adds) s f n h =
      run_adds-total adds (λ g. ite (same c g) (add64 (s g) d) (s g)) f (n + delta f (c, d))
        (ground (arith, h))
      ∙ rw (add_assoc n (delta f (c, d)) (total f adds))

  pub total-append : (f : C) (xs ys : List (C × ℕ)) → total f (xs ++ ys) ≡ total f xs + total f ys
  total-append f [] ys = omega arith
  total-append f (x ∷ xs) ys = omega (arith, total-append f xs ys)

-- The additions of two threads, in any order that keeps each thread's own.
pub data Interleaving {A : Type 0} : List A → List A → List A → Type 0 where
  done : Interleaving [] [] []
  left : {xs ys zs : List A} (x : A) → Interleaving xs ys zs → Interleaving (x ∷ xs) ys (x ∷ zs)
  right : {xs ys zs : List A} (y : A) → Interleaving xs ys zs → Interleaving xs (y ∷ ys) (y ∷ zs)

-- The additions of any number of threads.
pub data Interleavings {A : Type 0} : List (List A) → List A → Type 0 where
  none_left : Interleavings [] []
  one_more :
      {xs ys zs : List A} {rest : List (List A)}
      → Interleavings rest ys
      → Interleaving xs ys zs
      → Interleavings (xs ∷ rest) zs

sum_of-Interleaving :
    {A : Type 0} (f : A → ℕ) {xs ys zs : List A}
    → Interleaving xs ys zs
    → sum_of f zs ≡ sum_of f xs + sum_of f ys
sum_of-Interleaving f done = refl
sum_of-Interleaving f (left x i) = omega (arith, sum_of-Interleaving f i)
sum_of-Interleaving f (right y i) = omega (arith, sum_of-Interleaving f i)

pub sum_of-Interleavings :
    {A : Type 0} (f : A → ℕ) {threads : List (List A)} {zs : List A}
    → Interleavings threads zs
    → sum_of f zs ≡ sum_of (sum_of f) threads
sum_of-Interleavings f none_left = refl
sum_of-Interleavings f (one_more is i) =
    omega (arith, sum_of-Interleaving f i, sum_of-Interleavings f is)
