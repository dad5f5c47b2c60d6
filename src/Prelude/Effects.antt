-- ===== src/Prelude/Effects.antt =====
-- What a call of a Go function comes to: it returns, it panics or ends the process, or the
-- rounds granted to a loop are used up.

use mathlib.Core.Path.{◌≡◌, refl}

-- `fatal` is log.Fatalln and os.Exit.
pub data Panic : Type 0 where
  divide_by_zero index_out_of_range slice_out_of_range bad_size nil_dereference closed_channel
        bad_assertion fatal :
      Panic

pub data Outcome {ℓ} (A : Type ℓ) : Type ℓ where
  returned : A → Outcome A
  panicked : Panic → Outcome A
  running : Outcome A

infixl 5 ◌>>=◌
abbrev pub ◌>>=◌ {ℓ κ} : {A : Type ℓ} {B : Type κ} → Outcome A → (A → Outcome B) → Outcome B
returned a >>= f = f a
panicked p >>= f = panicked p
running >>= f = running

-- A bind that returns has a first part that returns.
pub >>=-eq-returned {ℓ κ} :
    {A : Type ℓ} {B : Type κ} (m : Outcome A) (f : A → Outcome B) {b : B}
    → (m >>= f) ≡ returned b
    → (a : A) × (m ≡ returned a) × (f a ≡ returned b)
>>=-eq-returned (returned a) f h = (a, refl, h)
>>=-eq-returned (panicked p) f h = cc
>>=-eq-returned running f h = cc

-- A value or a Go `error`.
pub data Result {ℓ κ} (E : Type κ) (A : Type ℓ) : Type (ℓ ⊔ κ) where
  ok : A → Result E A
  err : E → Result E A
