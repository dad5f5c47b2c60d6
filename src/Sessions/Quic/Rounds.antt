-- ===== src/Sessions/Quic/Rounds.antt =====
-- That Get of sessions/quic.go takes the connections in turn.
use native.Mathlib.Nat.{zero-add}
use sigbench.Prelude.{
  ℕ, zero, suc, ◌+◌, ◌%◌, ◌<◌, ◌≡◌, ◌≢◌, ◌∙◌, refl, ap, List, ◌∷◌, Option, none, some, Result, ok,
  err, returned, arith, sum_below, ◌==◌, ltb, get_elem?, word_mod, if◌then◌else◌, Bool-cases, false,
  inl, inr,
}
use sigbench.Sessions.Quic.{QuicConnPool, dial_all, dial_pool, get_conn}

sum_below-ext :
    (n : ℕ) (f g : ℕ → ℕ) → ((k : ℕ) → k < n → f k ≡ g k) → sum_below n f ≡ sum_below n g
sum_below-ext zero f g h = refl
sum_below-ext (suc n) f g h =
    omega (arith, sum_below-ext n f g (λ k l. h k (omega arith)), h n (omega arith))

sum_below-shift : (n : ℕ) (g : ℕ → ℕ) → sum_below n (λ k. g (suc k)) + g 0 ≡ sum_below n g + g n
sum_below-shift zero g = refl
sum_below-shift (suc n) g = omega (arith, sum_below-shift n g)

-- 1 if the numbers are equal.
abbrev pub hit : ℕ → ℕ → ℕ
hit i j = if j == i then 1 else 0

sum_below-hit : (n i : ℕ) → sum_below n (hit i) ≡ (if ltb i n then 1 else 0)
sum_below-hit zero i = ground arith
sum_below-hit (suc n) i = ground (arith, sum_below-hit n i)

module _ (n i : ℕ) (below : i < n) where
  hit-mod_add : (c : ℕ) → hit i ((n + c) % n) ≡ hit i (c % n)
  hit-mod_add c = let e : (n + c) % n ≡ c % n = grind arith in rw e

  -- Any n numbers in a row have each remainder once.
  sum_below-hit_mod : (c : ℕ) → sum_below n (λ k. hit i ((k + c) % n)) ≡ 1
  sum_below-hit_mod zero =
      sum_below-ext n (λ k. hit i ((k + 0) % n)) (hit i)
        (λ k l. let e : (k + 0) % n ≡ k = grind arith in rw e)
      ∙ sum_below-hit n i
      ∙ ground arith
  sum_below-hit_mod (suc c) =
      let moved =
        sum_below-ext n (λ k. hit i ((k + suc c) % n)) (λ k. hit i ((suc k + c) % n))
          (λ k l. let e : k + suc c ≡ suc k + c = omega arith in rw e) in
      let same = hit-mod_add c in
      let shifted = sum_below-shift n (λ k. hit i ((k + c) % n)) in
      let start : hit i ((0 + c) % n) ≡ hit i (c % n) = rw zero-add in
      omega (arith, moved, same, shifted, start, sum_below-hit_mod c)

module _ {A E : Type 0} (dial : ℕ → Result E A) where
  abbrev IsDialled : ℕ → ℕ → List (Option A) → Type 0
  IsDialled i j cs = (c : A) × (dial (i + j) ≡ ok c) × (get_elem? cs j ≡ some (some c))

  first : (i : ℕ) (c : A) (cs : List (Option A)) → dial i ≡ ok c → IsDialled i 0 (some c ∷ cs)
  first i c cs d = (c, let e : i + 0 ≡ i = omega arith in rw (e, d), refl)

  later :
      (i j : ℕ) (c : A) (cs : List (Option A))
      → IsDialled (suc i) j cs
      → IsDialled i (suc j) (some c ∷ cs)
  later i j c cs (c', d, g) = (c', let e : i + suc j ≡ suc i + j = omega arith in rw e d, g)

  dial_all-ok :
      (n i : ℕ) (c : A)
      → dial i ≡ ok c
      → dial_all dial (suc n) i
        ≡ (some c ∷ (dial_all dial n (suc i)).0, (dial_all dial n (suc i)).1)
  unfolding dial_all
  dial_all-ok n i c d = rw (d, dial_all)

  dial_all-err : (n i : ℕ) (e : E) → dial i ≡ err e → (dial_all dial (suc n) i).1 ≢ none
  unfolding dial_all
  dial_all-err n i e d h = ground (arith, d)

  -- Without an error, every index holds the connection dialled for it.
  dial_all-IsDialled :
      (n i j : ℕ) → (dial_all dial n i).1 ≡ none → j < n → IsDialled i j (dial_all dial n i).0
  dial_all-IsDialled zero i j h l = absurd (omega arith)
  dial_all-IsDialled (suc n) i j h l =
      dialled (dial i) refl j l (λ h' k m. dial_all-IsDialled n (suc i) k h' m)
    where
      dialled :
          (r : Result E A)
          → dial i ≡ r
          → (j : ℕ) → j < suc n
          → ((dial_all dial n (suc i)).1 ≡ none
              → (k : ℕ) → k < n
              → IsDialled (suc i) k (dial_all dial n (suc i)).0)
          → IsDialled i j (dial_all dial (suc n) i).0
      dialled (err e) d j l ih = absurd (dial_all-err n i e d h)
      dialled (ok c) d zero l ih =
          rw (dial_all-ok n i c d) (first i c (dial_all dial n (suc i)).0 d)
      dialled (ok c) d (suc j) l ih = rw (dial_all-ok n i c d) (
          later i j c (dial_all dial n (suc i)).0
            (ih (rw (dial_all-ok n i c d) at h) j (omega arith)))

-- The pool after `k` calls of Get.
abbrev pub after_gets : {A : Type 0} → ℕ → QuicConnPool A → QuicConnPool A
after_gets zero p = p
after_gets (suc k) p = after_gets k (get_conn p).0

after_gets-cnt :
    {A : Type 0} (k : ℕ) (p : QuicConnPool A)
    → p.cnt + k < word_mod
    → after_gets k p ≡ record p { cnt = p.cnt + k }
unfolding get_conn
after_gets-cnt zero p h = ap (λ m. record p { cnt = m }) (omega arith)
after_gets-cnt (suc k) p h =
    after_gets-cnt k (get_conn p).0 (omega arith) ∙ ap (λ m. record p { cnt = m }) (omega arith)

get_conn-IsDialled :
    {A E : Type 0} (dial : ℕ → Result E A) (q : QuicConnPool A) (t : ℕ)
    → 0 < q.n
    → (q.cnt + 1) % word_mod % q.n ≡ t
    → IsDialled dial 0 t q.conns
    → (c : A) × ((get_conn q).1 ≡ returned (some c)) × (dial t ≡ ok c)
unfolding get_conn
get_conn-IsDialled dial q t pos e (c, d, g) =
    let nonzero : (q.n == 0) ≡ false = ground arith in
    (c, rw (nonzero, e, g) refl, rw zero-add at d)

module _ {A E : Type 0} (longest : ℕ) (dial : ℕ → Result E A) (p q : QuicConnPool A)
    (done : dial_pool longest dial p ≡ returned (q, none)) where
  dialled_pool :
      (q.n ≡ p.n) × (q.conns ≡ (dial_all dial p.n 0).0) × ((dial_all dial p.n 0).1 ≡ none)
  unfolding dial_pool
  dialled_pool = elim (Bool-cases (ltb longest p.n)) [
    | inl big ↦ absurd (ground arith)
    | inr fits ↦ ground arith
  ]

  -- Whenever Dial of a pool of n > 0 connections returns no error, and n further calls do not overflow
  -- the counter, each of the next n calls of Get returns a connection that was dialled, and over these
  -- calls every connection is returned exactly once.
  pub get_conn-fair :
      0 < q.n
      → q.cnt + q.n < word_mod
      → (turn : ℕ → ℕ) × ((k : ℕ)
          → k < q.n
          → (c : A) × ((get_conn (after_gets k q)).1 ≡ returned (some c)) × (dial (turn k) ≡ ok c))
        × ((i : ℕ) → i < q.n → sum_below q.n (λ k. hit i (turn k)) ≡ 1)
  get_conn-fair pos room =
      (λ k. (k + suc q.cnt) % q.n, each, λ i l. sum_below-hit_mod q.n i l (suc q.cnt))
    where
      each :
          (k : ℕ)
          → k < q.n
          → (c : A) × ((get_conn (after_gets k q)).1 ≡ returned (some c))
            × (dial ((k + suc q.cnt) % q.n) ≡ ok c)
      each k l =
          let t = (k + suc q.cnt) % q.n in
          let (same_n, conns, fine) = dialled_pool in
          let below : t < q.n = grind arith in
          let index : (q.cnt + k + 1) % word_mod ≡ k + suc q.cnt = omega arith in
          rw (after_gets-cnt k q (omega arith)) (
            get_conn-IsDialled dial (record q { cnt = q.cnt + k }) t pos (rw index refl)
              (rw conns (dial_all-IsDialled dial p.n 0 t fine (omega arith))))
