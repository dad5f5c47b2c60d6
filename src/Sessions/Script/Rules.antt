-- ===== src/Sessions/Script/Rules.antt =====
-- What the additions of a session's call come to, read off its steps: rules for the scripts.
pub mod Quiet
use native.Mathlib.Nat.{zero-add}
use mathlib.Core.Path.{subst}
use sigbench.Prelude.{
  ℕ, ◌+◌, ◌≡◌, ◌∙◌, refl, String, Bool, true, false, List, [], ◌∷◌, ◌++◌, map, Option, none, some,
  Result, ok, err, arith, sum_of, if◌then◌else◌,
}
use sigbench.Sessions.Script.{
  Ending, value, error, crash, blocked, Script, after, ◌>>=◌, try, or_out_of_range, deferred, defer,
}

pub sum_of-append :
    {A : Type 0} (w : A → ℕ) (xs ys : List A) → sum_of w (xs ++ ys) ≡ sum_of w xs + sum_of w ys
sum_of-append w [] ys = omega arith
sum_of-append w (x ∷ xs) ys = omega (arith, sum_of-append w xs ys)

module _ {C : Type 0} (w : C × ℕ → ℕ) (K : Type 0) where
  -- The weights of the additions: `v` if the call returns a value, `e` if it returns an error; it
  -- does not wait for ever; and `K` holds if it panics.
  abbrev pub Weighs : {A : Type 0} → ℕ → ℕ → List (C × ℕ) → Ending A → Type 0
  Weighs v e adds (value a) = sum_of w adds ≡ v
  Weighs v e adds (error x) = sum_of w adds ≡ e
  Weighs v e adds (crash p) = K
  Weighs v e adds blocked = ⊥

  abbrev pub Steady : {A : Type 0} → ℕ → ℕ → Script C A → Type 0
  Steady v e m = Weighs v e m.0 m.1

module _ {C : Type 0} (w : C × ℕ → ℕ) where
  -- The weight if the call returns a value, alone.
  abbrev pub WeighsValue : {A : Type 0} → ℕ → List (C × ℕ) → Ending A → Type 0
  WeighsValue v adds (value a) = sum_of w adds ≡ v
  WeighsValue v adds (error x) = Unit {0}
  WeighsValue v adds (crash p) = Unit {0}
  WeighsValue v adds blocked = Unit {0}

  abbrev pub Tally : {A : Type 0} → ℕ → Script C A → Type 0
  Tally v m = WeighsValue v m.0 m.1

module _ {C : Type 0} (w : C × ℕ → ℕ) (K : Type 0) where
  prefix-Weighs :
      {B : Type 0} (v e : ℕ) (xs ys : List (C × ℕ)) (r : Ending B)
      → sum_of w xs ≡ 0
      → Weighs w K v e ys r
      → Weighs w K v e (xs ++ ys) r
  prefix-Weighs v e xs ys (value a) h k = omega (arith, sum_of-append w xs ys, h, k)
  prefix-Weighs v e xs ys (error x) h k = omega (arith, sum_of-append w xs ys, h, k)
  prefix-Weighs v e xs ys (crash p) h k = k
  prefix-Weighs v e xs ys blocked h k = k

  after-Steady :
      {A B : Type 0} (v e : ℕ) (adds : List (C × ℕ)) (r : Ending A) (k : A → Script C B)
      → Weighs w K 0 e adds r
      → ((a : A) → Steady w K v e (k a))
      → Steady w K v e (after adds r k)
  after-Steady v e adds (value a) k h rest = prefix-Weighs v e adds (k a).0 (k a).1 h (rest a)
  after-Steady v e adds (error x) k h rest = h
  after-Steady v e adds (crash p) k h rest = h
  after-Steady v e adds blocked k h rest = h

  -- A step that weighs nothing on its value.
  pub bind-Steady :
      {A B : Type 0} (v e : ℕ) (m : Script C A) (k : A → Script C B)
      → Steady w K 0 e m
      → ((a : A) → Steady w K v e (k a))
      → Steady w K v e (m >>= k)
  bind-Steady v e m k h rest = after-Steady v e m.0 m.1 k h rest

  prefix-Tally :
      {B : Type 0} (u v : ℕ) (xs ys : List (C × ℕ)) (r : Ending B)
      → sum_of w xs ≡ u
      → WeighsValue w v ys r
      → WeighsValue w (u + v) (xs ++ ys) r
  prefix-Tally u v xs ys (value a) h k = omega (arith, sum_of-append w xs ys, h, k)
  prefix-Tally u v xs ys (error x) h k = tt
  prefix-Tally u v xs ys (crash p) h k = tt
  prefix-Tally u v xs ys blocked h k = tt

  after-Tally :
      {A B : Type 0} (u v : ℕ) (adds : List (C × ℕ)) (r : Ending A) (k : A → Script C B)
      → WeighsValue w u adds r
      → ((a : A) → Tally w v (k a))
      → Tally w (u + v) (after adds r k)
  after-Tally u v adds (value a) k h rest = prefix-Tally u v adds (k a).0 (k a).1 h (rest a)
  after-Tally u v adds (error x) k h rest = tt
  after-Tally u v adds (crash p) k h rest = tt
  after-Tally u v adds blocked k h rest = tt

  pub bind-Tally :
      {A B : Type 0} (u v : ℕ) (m : Script C A) (k : A → Script C B)
      → Tally w u m
      → ((a : A) → Tally w v (k a))
      → Tally w (u + v) (m >>= k)
  bind-Tally u v m k h rest = after-Tally u v m.0 m.1 k h rest

  pub Steady-Tally :
      {A : Type 0} (v e : ℕ) (adds : List (C × ℕ)) (r : Ending A)
      → Weighs w K v e adds r
      → WeighsValue w v adds r
  Steady-Tally v e adds (value a) h = h
  Steady-Tally v e adds (error x) h = tt
  Steady-Tally v e adds (crash p) h = tt
  Steady-Tally v e adds blocked h = tt

  -- `try` weighs what its error counter weighs, if there is an error.
  pub try-Steady : {A : Type 0} (c : C) (r : Result String A) → Steady w K 0 (w (c, 1)) (try c r)
  try-Steady c (ok a) = refl
  try-Steady c (err x) = omega arith

  pub or_out_of_range-Steady :
      {A : Type 0} (e : ℕ) (o : Option A) → K → Steady w K 0 e (or_out_of_range o)
  or_out_of_range-Steady e none k = k
  or_out_of_range-Steady e (some a) k = refl

  pub if-Steady :
      {A : Type 0} (v e : ℕ) (b : Bool) (m n : Script C A)
      → Steady w K v e m
      → Steady w K v e n
      → Steady w K v e (if b then m else n)
  if-Steady v e true m n hm hn = hm
  if-Steady v e false m n hm hn = hn

  pub if-Tally :
      {A : Type 0} (v : ℕ) (b : Bool) (m n : Script C A)
      → Tally w v m
      → Tally w v n
      → Tally w v (if b then m else n)
  if-Tally v true m n hm hn = hm
  if-Tally v false m n hm hn = hn

  silent-Weighs :
      {A : Type 0} (v e d : ℕ) (c : C) (adds : List (C × ℕ)) (r : Ending A)
      → w (c, d) ≡ 0
      → Weighs w K v e adds r
      → Weighs w K v e (adds ++ deferred c d r) r
  silent-Weighs v e d c adds (value a) z h = omega (arith, sum_of-append w adds ((c, d) ∷ []), h, z)
  silent-Weighs v e d c adds (error x) z h = omega (arith, sum_of-append w adds ((c, d) ∷ []), h, z)
  silent-Weighs v e d c adds (crash p) z h = h
  silent-Weighs v e d c adds blocked z h = h

  -- A deferred addition that the weight does not count.
  pub silent-Steady :
      {A : Type 0} (v e d : ℕ) (c : C) (m : Script C A)
      → w (c, d) ≡ 0
      → Steady w K v e m
      → Steady w K v e (defer c d m)
  silent-Steady v e d c m z h = silent-Weighs v e d c m.0 m.1 z h

  silent-WeighsValue :
      {A : Type 0} (v d : ℕ) (c : C) (adds : List (C × ℕ)) (r : Ending A)
      → w (c, d) ≡ 0
      → WeighsValue w v adds r
      → WeighsValue w v (adds ++ deferred c d r) r
  silent-WeighsValue v d c adds (value a) z h =
      omega (arith, sum_of-append w adds ((c, d) ∷ []), h, z)
  silent-WeighsValue v d c adds (error x) z h = tt
  silent-WeighsValue v d c adds (crash p) z h = tt
  silent-WeighsValue v d c adds blocked z h = tt

  pub silent-Tally :
      {A : Type 0} (v d : ℕ) (c : C) (m : Script C A)
      → w (c, d) ≡ 0
      → Tally w v m
      → Tally w v (defer c d m)
  silent-Tally v d c m z h = silent-WeighsValue v d c m.0 m.1 z h

  -- A step that weighs nothing, before a rest that weighs `v`.
  pub skip-Tally :
      {A B : Type 0} (v e : ℕ) (m : Script C A) (k : A → Script C B)
      → Steady w K 0 e m
      → ((a : A) → Tally w v (k a))
      → Tally w v (m >>= k)
  skip-Tally v e m k h rest =
      subst (λ x. WeighsValue w x (m >>= k).0 (m >>= k).1) (zero-add v)
        (bind-Tally 0 v m k (Steady-Tally 0 e m.0 m.1 h) rest)

module _ {C D : Type 0} (f : C → D) (w : D × ℕ → ℕ) where
  -- The weight of a field by what it is renamed to.
  abbrev pub renamed : C × ℕ → ℕ
  renamed p = w (f p.0, p.1)

  sum_of-rename :
      (adds : List (C × ℕ)) → sum_of w (map (λ p. (f p.0, p.1)) adds) ≡ sum_of renamed adds
  sum_of-rename [] = refl
  sum_of-rename (p ∷ adds) = omega (arith, sum_of-rename adds)

  pub rename-Weighs :
      {A : Type 0} (K : Type 0) (v e : ℕ) (adds : List (C × ℕ)) (r : Ending A)
      → Weighs renamed K v e adds r
      → Weighs w K v e (map (λ p. (f p.0, p.1)) adds) r
  rename-Weighs K v e adds (value a) h = sum_of-rename adds ∙ h
  rename-Weighs K v e adds (error x) h = sum_of-rename adds ∙ h
  rename-Weighs K v e adds (crash p) h = h
  rename-Weighs K v e adds blocked h = h

  pub rename-WeighsValue :
      {A : Type 0} (v : ℕ) (adds : List (C × ℕ)) (r : Ending A)
      → WeighsValue renamed v adds r
      → WeighsValue w v (map (λ p. (f p.0, p.1)) adds) r
  rename-WeighsValue v adds (value a) h = sum_of-rename adds ∙ h
  rename-WeighsValue v adds (error x) h = tt
  rename-WeighsValue v adds (crash p) h = tt
  rename-WeighsValue v adds blocked h = tt
