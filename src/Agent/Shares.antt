-- ===== src/Agent/Shares.antt =====
-- The shares that getSessionUsers of agent/agent_controller.go hands to the agents.
use sigbench.Prelude.{
  min, ap, ℕ, zero, suc, ◌+◌, ◌-◌, ◌*◌, ◌/◌, ◌<◌, ◌≤◌, ◌≡◌, refl, returned, running, arith, IsNat64,
  IsWord, half_mod, word_mod, sub64, mul64, add64, is_neg, div64-nat, ltb, ◌%◌, ◌>>=◌, ◌∙◌,
  sum_below, true, inl, inr, Bool-cases,
}
use native.Mathlib.Decide.{dec_lt}
use native.Mathlib.Nat.{
  le_trans, mul-le-mul_left, min-le_left, div-mul-le_self, lt-div-mul-add, div-eq_of_lt, mul_comm,
}
use sigbench.Agent.Users.{
  Floats, total_session_users, find_last_idx, share_at, split_users, get_session_users,
}
use sigbench.Base.{JobPhase}

-- What the loop looks for: the last index whose predecessors can all take `major` users.
pub record IsLastIdx (total major n l : ℕ) : Type 0 where
  pub in_range : l < n
  pub fits : major * l ≤ total
  pub rest_le : total - major * l ≤ major

-- The loop's test, on operands that do not wrap.
negative_iff : (t p : ℕ) → IsNat64 t → IsNat64 p → is_neg (sub64 t (p % word_mod)) ≡ ltb t p
negative_iff t p ht hp = ground arith

find_last_idx-IsLastIdx :
    (fuel total major n l : ℕ)
    → l < fuel
    → l < n
    → n < half_mod
    → IsNat64 total
    → IsNat64 (major * l)
    → total ≤ major * suc l
    → (r : ℕ) × (find_last_idx fuel total major l ≡ returned r) × IsLastIdx total major n r
unfolding find_last_idx
find_last_idx-IsLastIdx zero total major n l f h hn ht hp hr = absurd (omega arith)
find_last_idx-IsLastIdx (suc fuel) total major n zero f h hn ht hp hr = (
  zero,
  ground (arith, negative_iff total (major * zero) ht hp),
  record { in_range = h; fits = omega arith; rest_le = omega arith },
)
find_last_idx-IsLastIdx (suc fuel) total major n (suc k) f h hn ht hp hr =
    elim (Bool-cases (is_neg (sub64 total (mul64 major (suc k))))) [
      | inl neg ↦
          let below : total < major * suc k =
            ground (arith, negative_iff total (major * suc k) ht hp) in
          let back : sub64 (suc k) 1 ≡ k = omega arith in
          rw neg (
            rw back (
              find_last_idx-IsLastIdx fuel total major n k (omega arith) (omega arith) hn ht
                (omega arith) (omega arith)))
      | inr nonneg ↦ (
        suc k,
        rw nonneg,
        record {
          in_range = h;
          fits = ground (arith, negative_iff total (major * suc k) ht hp);
          rest_le = omega arith;
        },
      )
    ]

-- The ceiling of total / n.
abbrev pub ceil_div : ℕ → ℕ → ℕ
ceil_div total n = (total + n - 1) / n

-- What the i-th of n agents takes, when each takes the ceiling for as long as the total lasts.
abbrev pub reference_share : ℕ → ℕ → ℕ → ℕ
reference_share total n i = min (ceil_div total n) (total - ceil_div total n * i)

pub ceil_div_bounds :
    (total n : ℕ) → 0 < n → (total ≤ ceil_div total n * n) × (ceil_div total n * n ≤ total + n - 1)
ceil_div_bounds total n h =
    omega (arith, div-mul-le_self (total + n - 1) n, lt-div-mul-add {a = total + n - 1} h)

split_users_lem :
    (fuel total n i : ℕ)
    → 0 < n
    → total + n < half_mod
    → split_users fuel total n i ≡ (
        find_last_idx fuel total (ceil_div total n) (n - 1) >>= λ l.
        returned (share_at total (ceil_div total n) l i))
unfolding split_users
split_users_lem fuel total n i pos fits =
    let numerator : sub64 (add64 total n) 1 ≡ total + n - 1 = omega arith in
    let last : sub64 n 1 ≡ n - 1 = omega arith in
    rw (numerator, div64-nat (total + n - 1) n (omega arith) (omega arith) pos, last)

-- Every call finds the same last index, and reads the agent's share off it.
split_users-share_at :
    (fuel total n : ℕ)
    → 0 < n
    → n ≤ fuel
    → total + n < half_mod
    → (l : ℕ) × IsLastIdx total (ceil_div total n) n l
      × ((i : ℕ) → split_users fuel total n i ≡ returned (share_at total (ceil_div total n) l i))
split_users-share_at fuel total n pos enough fits =
    let (upper, lower) = ceil_div_bounds total n pos in
    let (l, found, last) =
      find_last_idx-IsLastIdx fuel total (ceil_div total n) n (n - 1) (omega arith) (omega arith)
        (omega arith) (omega arith) (grind arith) (grind arith) in
    (l, last, λ i. split_users_lem fuel total n i pos fits ∙ rw found)

module _ (total major n l : ℕ) (small : n < half_mod) (fits : IsNat64 total)
    (last : IsLastIdx total major n l) where
  share_at-below : (i : ℕ) → i < l → share_at total major l i ≡ major
  unfolding share_at
  share_at-below i h = ground (arith, last.in_range)

  share_at-last : share_at total major l l ≡ total - major * l
  unfolding share_at
  share_at-last = ground (arith, last.in_range, last.fits, mul_comm l major)

  share_at-above : (i : ℕ) → l < i → i < n → share_at total major l i ≡ 0
  unfolding share_at
  share_at-above i h k = ground (arith, last.in_range)

  sum-share_at_le : (k : ℕ) → k ≤ l → sum_below k (share_at total major l) ≡ major * k
  sum-share_at_le zero h = omega arith
  sum-share_at_le (suc k) h = omega (arith, sum-share_at_le k (omega arith), share_at-below k h)

  sum-share_at : (d : ℕ) → l + suc d ≤ n → sum_below (l + suc d) (share_at total major l) ≡ total
  sum-share_at zero h =
      let next : l + 1 ≡ suc l = omega arith in
      rw next (omega (arith, sum-share_at_le l (omega arith), share_at-last, last.fits))
  sum-share_at (suc d) h =
      let next : l + suc (suc d) ≡ suc (l + suc d) = omega arith in
      rw next (
        omega (
          arith,
          sum-share_at d (omega arith),
          share_at-above (l + suc d) (omega arith) (omega arith),
        ))

  share_at-reference : (i : ℕ) → i < n → share_at total major l i ≡ min major (total - major * i)
  share_at-reference i h = elim (dec_lt i l) [
    | yes below ↦
        let reach : suc i ≤ l = omega arith in
        let within : major * suc i ≤ total = le_trans (mul-le-mul_left major reach) last.fits in
        omega (arith, share_at-below i below, within)
    | no other ↦ elim (dec_lt l i) [
      | yes above ↦
          let beyond : major * suc l ≤ major * i = mul-le-mul_left major (omega arith) in
          omega (arith, share_at-above i above h, last.rest_le, beyond)
      | no same ↦ let e : i ≡ l = omega arith in rw e (omega (arith, share_at-last, last.rest_le))
    ]
  ]

module _ (fl : Floats) (phase : JobPhase) (percentage : fl.F) (n : ℕ) (pos : 0 < n) where
  -- Whenever the phase's total for the session (not negative, as int64) and the agent count n > 0 add
  -- up to less than 2 ^ 63, and the loop may take as many rounds as there are agents, every index
  -- obtains a share, and the shares of the n agents add up to exactly the total.
  pub get_session_users-partition :
      (fuel : ℕ)
      → n ≤ fuel
      → total_session_users fl phase percentage + n < half_mod
      → (share : ℕ → ℕ) × ((i : ℕ)
          → get_session_users fuel fl phase percentage n i ≡ returned (share i))
        × (sum_below n share ≡ total_session_users fl phase percentage)
  unfolding get_session_users
  get_session_users-partition fuel enough fits =
      let total = total_session_users fl phase percentage in
      let (l, last, share) = split_users-share_at fuel total n pos enough fits in
      let whole : l + suc (n - suc l) ≡ n = omega (arith, last.in_range) in
      (
        share_at total (ceil_div total n) l,
        share,
        rw whole at (
            sum-share_at total (ceil_div total n) n l (omega arith) (omega arith) last (n - suc l)
              (omega (arith, last.in_range))),
      )

  -- Under the same conditions an agent whose index i is below n obtains the share of the simple rule: of
  -- what the i agents before it leave when each takes the total divided by n, rounded up, it takes that
  -- much too, or all of it if that is less.
  pub get_session_users-reference :
      (fuel i : ℕ)
      → n ≤ fuel
      → total_session_users fl phase percentage + n < half_mod
      → i < n
      → get_session_users fuel fl phase percentage n i
        ≡ returned (reference_share (total_session_users fl phase percentage) n i)
  unfolding get_session_users
  get_session_users-reference fuel i enough fits h =
      let total = total_session_users fl phase percentage in
      let (l, last, share) = split_users-share_at fuel total n pos enough fits in
      share i
      ∙ ap returned
          (share_at-reference total (ceil_div total n) n l (omega arith) (omega arith) last i h)

  -- So it is at most the total divided by n, rounded up.
  pub get_session_users-le-ceil_div :
      (fuel i : ℕ)
      → n ≤ fuel
      → total_session_users fl phase percentage + n < half_mod
      → i < n
      → (users : ℕ) × (get_session_users fuel fl phase percentage n i ≡ returned users)
        × (users ≤ ceil_div (total_session_users fl phase percentage) n)
  get_session_users-le-ceil_div fuel i enough fits h =
      let total = total_session_users fl phase percentage in
      (
        reference_share total n i,
        get_session_users-reference fuel i enough fits h,
        min-le_left (ceil_div total n) (total - ceil_div total n * i),
      )

-- A negative difference never lets the loop end, when each agent's part is 0.
find_last_idx-running :
    (fuel total l : ℕ) → is_neg total ≡ true → IsWord total → find_last_idx fuel total 0 l ≡ running
unfolding find_last_idx
find_last_idx-running zero total l neg w = refl
find_last_idx-running (suc fuel) total l neg w =
    let product : mul64 0 l ≡ 0 = omega arith in
    let same : sub64 total 0 ≡ total = omega arith in
    rw (product, same, neg) (find_last_idx-running fuel total (sub64 l 1) neg w)

-- Whenever the total is a negative int64 -a with 0 < a < n, n < 2 ^ 63 agents, the call never
-- returns: however many rounds its loop is granted, it is still running.
pub get_session_users-diverges :
    (fl : Floats) (phase : JobPhase) (percentage : fl.F) (fuel n i a : ℕ)
    → 0 < a
    → a < n
    → n < half_mod
    → total_session_users fl phase percentage ≡ word_mod - a
    → get_session_users fuel fl phase percentage n i ≡ running
unfolding get_session_users split_users
get_session_users-diverges fl phase percentage fuel n i a pos lt small total =
    let numerator : sub64 (add64 (word_mod - a) n) 1 ≡ n - a - 1 = omega arith in
    let major : (n - a - 1) / n ≡ 0 = div-eq_of_lt (omega arith) in
    rw (total, numerator, div64-nat (n - a - 1) n (omega arith) small (omega arith), major)
      (rw (find_last_idx-running fuel (word_mod - a) (sub64 n 1) (ground arith) (omega arith)))
