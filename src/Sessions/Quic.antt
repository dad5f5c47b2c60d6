-- ===== src/Sessions/Quic.antt =====
-- The pool of QUIC connections of sessions/quic.go. The connections are what quic.DialAddr returns, one
-- result for each call.
pub mod Rounds
use sigbench.Prelude.{
  ℕ, zero, suc, ◌+◌, ◌%◌, ◌≡◌, String, List, [], ◌∷◌, ◌++◌, Option, none, some, Result, ok, err,
  Outcome, returned, panicked, divide_by_zero, index_out_of_range, bad_size, ltb, ◌==◌, get_elem?,
  word_mod, if◌then◌else◌,
}

-- A connection that has not been dialled is nil.
pub record QuicConnPool (A : Type 0) : Type 0 where
  pub n : ℕ  -- uint64
  pub conns : List (Option A)
  pub cnt : ℕ  -- uint64

abbrev nils : {A : Type 0} → ℕ → List (Option A)
nils zero = []
nils (suc n) = none ∷ nils n

-- The loop, from the i-th connection on with `n` left: the first error ends it.
unfoldable pub dial_all : {A E : Type 0} → (ℕ → Result E A) → ℕ → ℕ → List (Option A) × Option E
dial_all dial zero i = ([], none)
dial_all dial (suc n) i =
    let later = dial_all dial n (suc i) in
    elim (dial i) [ err e ↦ (nils (suc n), some e) | ok c ↦ (some c ∷ later.0, later.1) ]

-- `longest` is the longest slice of connections that make accepts; a longer one panics.
unfoldable pub dial_pool :
    {A E : Type 0} → ℕ → (ℕ → Result E A) → QuicConnPool A → Outcome (QuicConnPool A × Option E)
unfolding dial_all
dial_pool longest dial p =
    if ltb longest p.n
    then panicked bad_size
    else let (conns, e) = dial_all dial p.n 0 in returned (record p { conns = conns }, e)

abbrev or_out_of_range : {A : Type 0} → Option A → Outcome A
or_out_of_range none = panicked index_out_of_range
or_out_of_range (some a) = returned a

-- The index that a call of Get takes, and the connection there. A remainder by 0 panics.
unfoldable pub get_conn : {A : Type 0} → QuicConnPool A → QuicConnPool A × Outcome (Option A)
get_conn p =
    let idx = (p.cnt + 1) % word_mod in
    (
      record p { cnt = idx },
      if p.n == 0 then panicked divide_by_zero else or_out_of_range (get_elem? p.conns (idx % p.n)),
    )
