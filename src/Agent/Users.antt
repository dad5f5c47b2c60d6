-- ===== src/Agent/Users.antt =====
-- AgentController.getSessionUsers of agent/agent_controller.go: how many of a phase's users an agent
-- simulates. int64 and int are bit patterns; float64 is a parameter.
use sigbench.Prelude.{
  ℕ, zero, suc, ◌≡◌, refl, Outcome, returned, running, ◌>>=◌, add64, sub64, mul64, div64, is_neg,
  lt64, ◌==◌, if◌then◌else◌,
}
use sigbench.Base.{JobPhase}

-- Go's float64: the conversions from and to int64, and the product.
pub record Floats : Type 1 where
  pub F : Type 0
  pub from_int64 : ℕ → F
  pub to_int64 : F → ℕ
  pub mul : F → F → F

unfoldable pub total_session_users : (fl : Floats) → JobPhase → fl.F → ℕ
total_session_users fl phase percentage =
    fl.to_int64 (fl.mul (fl.from_int64 phase.users_per_second) percentage)

-- `for total-major*lastIdx < 0 { lastIdx-- }`
unfoldable pub find_last_idx : ℕ → ℕ → ℕ → ℕ → Outcome ℕ
find_last_idx zero total major last_idx = running
find_last_idx (suc fuel) total major last_idx =
    let rest = find_last_idx fuel total major (sub64 last_idx 1) in
    if is_neg (sub64 total (mul64 major last_idx)) then rest else returned last_idx

unfoldable pub share_at : ℕ → ℕ → ℕ → ℕ → ℕ
share_at total major last_idx agent_idx =
    if lt64 agent_idx last_idx
    then major
    else if agent_idx == last_idx
    then sub64 total (mul64 last_idx major)
    else 0

-- The body below the product; a zero agent count panics in the division.
unfoldable pub split_users : ℕ → ℕ → ℕ → ℕ → Outcome ℕ
unfolding find_last_idx share_at
split_users fuel total agent_count agent_idx = do
  major ← div64 (sub64 (add64 total agent_count) 1) agent_count
  last_idx ← find_last_idx fuel total major (sub64 agent_count 1)
  returned (share_at total major last_idx agent_idx)

unfoldable pub get_session_users : ℕ → (fl : Floats) → JobPhase → fl.F → ℕ → ℕ → Outcome ℕ
unfolding total_session_users split_users
get_session_users fuel fl phase percentage agent_count agent_idx =
    split_users fuel (total_session_users fl phase percentage) agent_count agent_idx

-- agent_controller_test.go
twenty_nine : split_users 5 29 5 4 ≡ returned 5
unfolding split_users
twenty_nine = refl

twenty : split_users 8 20 8 6 ≡ returned 2
unfolding split_users
twenty = refl
