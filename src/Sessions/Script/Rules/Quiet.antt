-- ===== src/Sessions/Script/Rules/Quiet.antt =====
-- Rules for calls that may wait for ever, or panic.
use sigbench.Prelude.{
  ℕ, ◌≡◌, refl, String, Bool, true, false, List, [], ◌∷◌, ◌++◌, Result, ok, err, arith, sum_of,
  if◌then◌else◌,
}
use sigbench.Sessions.Script.{
  Ending, value, error, crash, blocked, Script, after, ◌>>=◌, try, deferred, defer,
}
use sigbench.Sessions.Script.Rules.{WeighsValue, Tally, sum_of-append}

-- Calls that weigh nothing, however they end, and that may wait for ever; `K` holds if they panic.
module _ {C : Type 0} (w : C × ℕ → ℕ) (K : Type 0) where
  abbrev pub IsCalm : {A : Type 0} → Ending A → Type 0
  IsCalm (crash p) = K
  IsCalm _ = Unit {0}

  abbrev pub Quiet : {A : Type 0} → Script C A → Type 0
  Quiet m = (sum_of w m.0 ≡ 0) × IsCalm m.1

  after-Quiet :
      {A B : Type 0} (adds : List (C × ℕ)) (r : Ending A) (k : A → Script C B)
      → sum_of w adds ≡ 0
      → IsCalm r
      → ((a : A) → Quiet (k a))
      → Quiet (after adds r k)
  after-Quiet adds (value a) k h c rest =
      (omega (arith, sum_of-append w adds (k a).0, h, (rest a).0), (rest a).1)
  after-Quiet adds (error x) k h c rest = (h, tt)
  after-Quiet adds (crash p) k h c rest = (h, c)
  after-Quiet adds blocked k h c rest = (h, tt)

  pub bind-Quiet :
      {A B : Type 0} (m : Script C A) (k : A → Script C B)
      → Quiet m
      → ((a : A) → Quiet (k a))
      → Quiet (m >>= k)
  bind-Quiet m k h rest = after-Quiet m.0 m.1 k h.0 h.1 rest

  pub try-Quiet : {A : Type 0} (c : C) (r : Result String A) → w (c, 1) ≡ 0 → Quiet (try c r)
  try-Quiet c (ok a) h = (refl, tt)
  try-Quiet c (err x) h = (omega (arith, h), tt)

  deferred-sum :
      {A : Type 0} (c : C) (d : ℕ) (r : Ending A) → w (c, d) ≡ 0 → sum_of w (deferred c d r) ≡ 0
  deferred-sum c d (value a) h = omega (arith, h)
  deferred-sum c d (error x) h = omega (arith, h)
  deferred-sum c d (crash p) h = omega (arith, h)
  deferred-sum c d blocked h = refl

  pub defer-Quiet :
      {A : Type 0} (c : C) (d : ℕ) (m : Script C A) → w (c, d) ≡ 0 → Quiet m → Quiet (defer c d m)
  defer-Quiet c d m h q =
      (omega (arith, sum_of-append w m.0 (deferred c d m.1), deferred-sum c d m.1 h, q.0), q.1)

  pub if-Quiet :
      {A : Type 0} (b : Bool) (m n : Script C A) → Quiet m → Quiet n → Quiet (if b then m else n)
  if-Quiet true m n hm hn = hm
  if-Quiet false m n hm hn = hn

-- Calls that weigh `e` if they return an error, and nothing otherwise.
module _ {C : Type 0} (w : C × ℕ → ℕ) (e : ℕ) where
  abbrev pub Charges : {A : Type 0} → List (C × ℕ) → Ending A → Type 0
  Charges adds (value a) = sum_of w adds ≡ 0
  Charges adds (error x) = sum_of w adds ≡ e
  Charges adds (crash p) = sum_of w adds ≡ 0
  Charges adds blocked = sum_of w adds ≡ 0

  abbrev pub Charge : {A : Type 0} → Script C A → Type 0
  Charge m = Charges m.0 m.1

  prefix-Charges :
      {B : Type 0} (xs ys : List (C × ℕ)) (r : Ending B)
      → sum_of w xs ≡ 0
      → Charges ys r
      → Charges (xs ++ ys) r
  prefix-Charges xs ys (value a) h k = omega (arith, sum_of-append w xs ys, h, k)
  prefix-Charges xs ys (error x) h k = omega (arith, sum_of-append w xs ys, h, k)
  prefix-Charges xs ys (crash p) h k = omega (arith, sum_of-append w xs ys, h, k)
  prefix-Charges xs ys blocked h k = omega (arith, sum_of-append w xs ys, h, k)

  after-Charge :
      {A B : Type 0} (adds : List (C × ℕ)) (r : Ending A) (k : A → Script C B)
      → Charges adds r
      → ((a : A) → Charge (k a))
      → Charge (after adds r k)
  after-Charge adds (value a) k h rest = prefix-Charges adds (k a).0 (k a).1 h (rest a)
  after-Charge adds (error x) k h rest = h
  after-Charge adds (crash p) k h rest = h
  after-Charge adds blocked k h rest = h

  pub bind-Charge :
      {A B : Type 0} (m : Script C A) (k : A → Script C B)
      → Charge m
      → ((a : A) → Charge (k a))
      → Charge (m >>= k)
  bind-Charge m k h rest = after-Charge m.0 m.1 k h rest

  pub try-Charge : {A : Type 0} (c : C) (r : Result String A) → w (c, 1) ≡ e → Charge (try c r)
  try-Charge c (ok a) h = refl
  try-Charge c (err x) h = omega (arith, h)

  defer-Charges :
      {A : Type 0} (c : C) (d : ℕ) (adds : List (C × ℕ)) (r : Ending A)
      → w (c, d) ≡ 0
      → Charges adds r
      → Charges (adds ++ deferred c d r) r
  defer-Charges c d adds (value a) z h = omega (arith, sum_of-append w adds ((c, d) ∷ []), h, z)
  defer-Charges c d adds (error x) z h = omega (arith, sum_of-append w adds ((c, d) ∷ []), h, z)
  defer-Charges c d adds (crash p) z h = omega (arith, sum_of-append w adds ((c, d) ∷ []), h, z)
  defer-Charges c d adds blocked z h = omega (arith, sum_of-append w adds [], h)

  pub defer-Charge :
      {A : Type 0} (c : C) (d : ℕ) (m : Script C A) → w (c, d) ≡ 0 → Charge m → Charge (defer c d m)
  defer-Charge c d m z h = defer-Charges c d m.0 m.1 z h

  pub if-Charge :
      {A : Type 0} (b : Bool) (m n : Script C A) → Charge m → Charge n → Charge (if b then m else n)
  if-Charge true m n hm hn = hm
  if-Charge false m n hm hn = hn

  charge-Tally :
      {A : Type 0} (adds : List (C × ℕ)) (r : Ending A) → Charges adds r → WeighsValue w 0 adds r
  charge-Tally adds (value a) h = h
  charge-Tally adds (error x) h = tt
  charge-Tally adds (crash p) h = tt
  charge-Tally adds blocked h = tt

  pub Charge-Tally : {A : Type 0} (m : Script C A) → Charge m → Tally w 0 m
  Charge-Tally m h = charge-Tally m.0 m.1 h
