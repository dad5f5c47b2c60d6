-- ===== src/Sessions/HttpGet/Balance.antt =====
-- The counters of sessions/http_get.go after any number of users have run Execute at once.
use sigbench.Prelude.{
  ℕ, zero, suc, ◌+◌, ◌*◌, ◌%◌, ◌≡◌, ◌∙◌, refl, List, [], ◌∷◌, map, Option, none, some, arith,
  word_mod, sum_of, minus_one, ◌⊎◌, inl, inr,
}
use native.Mathlib.Nat.{zero-add}
use sigbench.Sessions.Script.{
  total, total-append, run_adds, run_adds-total, Interleavings, sum_of-Interleavings, delta,
}
use sigbench.Sessions.HttpGet.{
  Field, initiated, completed, error, dial, duration_lt_1000, duration_lt_10000, duration_gte_10000,
  Field-discrete, Fetch, dial_adds, duration_bucket, execute_rest, execute, setup,
}

-- 1 for a fetch that got a response, and for one that failed.
abbrev pub responses : Fetch → ℕ
responses f = elim f.duration [ none ↦ 0 | some d ↦ 1 ]

abbrev pub failures : Fetch → ℕ
failures f = elim f.duration [ none ↦ 1 | some d ↦ 0 ]

abbrev pub adds_of : Fetch → List (Field × ℕ)
adds_of f = (execute f).0

abbrev of_field : Field → List (Field × ℕ) → ℕ
of_field = total Field-discrete

dial_adds-total :
    (f : Field) (n : ℕ) → of_field f (dial_adds n) ≡ n * delta Field-discrete f (dial, 1)
dial_adds-total f zero = omega arith
dial_adds-total f (suc n) = omega (arith, dial_adds-total f n)

execute-total :
    (f : Field) (fetch : Fetch)
    → of_field f (adds_of fetch)
      ≡ delta Field-discrete f (initiated, 1)
        + fetch.dials * delta Field-discrete f (dial, 1)
        + of_field f (execute_rest fetch.duration)
unfolding execute
execute-total f fetch = omega (
  arith,
  total-append Field-discrete f (dial_adds fetch.dials) (execute_rest fetch.duration),
  dial_adds-total f fetch.dials,
)

abbrev timed_total : List (Field × ℕ) → ℕ
timed_total adds =
    of_field duration_lt_1000 adds
    + of_field duration_lt_10000 adds
    + of_field duration_gte_10000 adds

-- What the end of a call adds to each field, the three duration fields together.
record Sums (adds : List (Field × ℕ)) (got lost : ℕ) : Type 0 where
  flight : of_field initiated adds ≡ minus_one
  done : of_field completed adds ≡ got
  failed : of_field error adds ≡ lost
  dialled : of_field dial adds ≡ 0
  timed : timed_total adds ≡ got

bucket_cases :
    (d : ℕ)
    → (duration_bucket d ≡ duration_lt_1000)
      ⊎ ((duration_bucket d ≡ duration_lt_10000) ⊎ (duration_bucket d ≡ duration_gte_10000))
unfolding duration_bucket
bucket_cases d = ground arith

abbrev ends_in : Field → List (Field × ℕ)
ends_in b = (b, 1) ∷ (initiated, minus_one) ∷ (completed, 1) ∷ []

Sums-lt_1000 : Sums (ends_in duration_lt_1000) 1 0
unfolding Field-discrete
Sums-lt_1000 = record { flight = refl; done = refl; failed = refl; dialled = refl; timed = refl }

Sums-lt_10000 : Sums (ends_in duration_lt_10000) 1 0
unfolding Field-discrete
Sums-lt_10000 = record { flight = refl; done = refl; failed = refl; dialled = refl; timed = refl }

Sums-gte_10000 : Sums (ends_in duration_gte_10000) 1 0
unfolding Field-discrete
Sums-gte_10000 = record { flight = refl; done = refl; failed = refl; dialled = refl; timed = refl }

execute_rest-Sums :
    (o : Option ℕ) (f : Fetch) → f.duration ≡ o → Sums (execute_rest o) (responses f) (failures f)
unfolding execute_rest Field-discrete
execute_rest-Sums none f e =
    rw e (record { flight = refl; done = refl; failed = refl; dialled = refl; timed = refl })
execute_rest-Sums (some d) f e = rw e (elim (bucket_cases d) [
  | inl b ↦ rw b Sums-lt_1000
  | inr (inl b) ↦ rw b Sums-lt_10000
  | inr (inr b) ↦ rw b Sums-gte_10000
])

-- The sums over the calls of all users.
record AllSums (fs : List Fetch) : Type 0 where
  flight : sum_of (of_field initiated) (map adds_of fs) % word_mod ≡ 0
  done : sum_of (of_field completed) (map adds_of fs) ≡ sum_of responses fs
  failed : sum_of (of_field error) (map adds_of fs) ≡ sum_of failures fs
  dialled : sum_of (of_field dial) (map adds_of fs) ≡ sum_of (λ f. f.dials) fs
  timed :
      sum_of (of_field duration_lt_1000) (map adds_of fs)
        + sum_of (of_field duration_lt_10000) (map adds_of fs)
        + sum_of (of_field duration_gte_10000) (map adds_of fs)
      ≡ sum_of responses fs

all_sums : (fs : List Fetch) → AllSums fs
unfolding Field-discrete
all_sums [] = omega arith
all_sums (f ∷ fs) =
    let ih = all_sums fs in
    let s = execute_rest-Sums f.duration f refl in
    record {
      flight = omega (arith, execute-total initiated f, ih.flight, s.flight);
      done = omega (arith, execute-total completed f, ih.done, s.done);
      failed = omega (arith, execute-total error f, ih.failed, s.failed);
      dialled = omega (arith, execute-total dial f, ih.dialled, s.dialled);
      timed = omega (
        arith,
        execute-total duration_lt_1000 f,
        execute-total duration_lt_10000 f,
        execute-total duration_gte_10000 f,
        ih.timed,
        s.timed,
      );
    }

-- Whatever order the atomic additions of all users' calls of Execute take effect in, after Setup and
-- once every call has returned: no request counts as initiated; as many as got a response count as
-- completed, and as many as failed as errors (modulo 2 ^ 64); the dials are counted; and the three
-- duration counters add up to the completed requests.
pub execute-balance :
    (fs : List Fetch) (zs : List (Field × ℕ))
    → Interleavings (map adds_of fs) zs
    → let s = run_adds Field-discrete zs setup in
      (s initiated ≡ 0)
      × (s completed ≡ sum_of responses fs % word_mod)
      × (s error ≡ sum_of failures fs % word_mod)
      × (s dial ≡ sum_of (λ f. f.dials) fs % word_mod)
      × ((s duration_lt_1000 + s duration_lt_10000 + s duration_gte_10000) % word_mod ≡ s completed)
execute-balance fs zs i =
    let sums = all_sums fs in
    (
      omega (arith, field_lem initiated, sums.flight),
      omega (arith, field_lem completed, sums.done),
      omega (arith, field_lem error, sums.failed),
      omega (arith, field_lem dial, sums.dialled),
      omega (
        arith,
        field_lem duration_lt_1000,
        field_lem duration_lt_10000,
        field_lem duration_gte_10000,
        field_lem completed,
        sums.timed,
        sums.done,
      ),
    )
  where
    field_lem :
        (f : Field)
        → run_adds Field-discrete zs setup f ≡ sum_of (of_field f) (map adds_of fs) % word_mod
    field_lem f =
        run_adds-total Field-discrete zs setup f 0 (unfold setup in refl)
        ∙ rw (zero-add, sum_of-Interleavings (delta Field-discrete f) i)
