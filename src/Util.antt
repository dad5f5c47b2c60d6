-- ===== src/Util.antt =====
-- util/vmss.go: the instance id at the end of a host name. A host name is its bytes; strconv.ParseInt
-- is modelled at base 36, where six bytes cannot overflow an int64.
use sigbench.Prelude.{
  ℕ, ◌+◌, ◌-◌, ◌*◌, ◌≡◌, refl, String, ◌&&◌, List, [], ◌∷◌, Option, none, some, Result, ok, err,
  Outcome, returned, panicked, slice_out_of_range, ltb, leb, ◌==◌, length, drop, if◌then◌else◌,
  neg64,
}

-- The value of a digit: 0-9, a-z, A-Z.
unfoldable pub digit_value : ℕ → Option ℕ
digit_value c =
    if leb b'0' c && leb c b'9'
    then some (c - b'0')
    else if leb b'a' c && leb c b'z'
    then some (c - b'a' + 10)
    else if leb b'A' c && leb c b'Z'
    then some (c - b'A' + 10)
    else none

unfoldable pub parse_digits : List ℕ → ℕ → Option ℕ
parse_digits [] n = some n
parse_digits (c ∷ s) n = elim (digit_value c) [ none ↦ none | some d ↦ parse_digits s (n * 36 + d) ]

abbrev pub syntax_error : String
syntax_error = "invalid syntax"

abbrev pub or_syntax_error : Option ℕ → Result String ℕ
or_syntax_error none = err syntax_error
or_syntax_error (some n) = ok n

-- One or more digits.
abbrev pub parse_unsigned : List ℕ → Result String ℕ
parse_unsigned [] = err syntax_error
parse_unsigned (c ∷ s) = or_syntax_error (parse_digits (c ∷ s) 0)

abbrev pub negated : Result String ℕ → Result String ℕ
negated (ok n) = ok (neg64 n)
negated (err e) = err e

-- strconv.ParseInt(s, 36, 64) on a short text: a sign may stand in front.
unfoldable pub parse_int36 : List ℕ → Result String ℕ
unfolding parse_digits digit_value
parse_int36 [] = err syntax_error
parse_int36 (c ∷ s) =
    if c == b'+'
    then parse_unsigned s
    else if c == b'-'
    then negated (parse_unsigned s)
    else parse_unsigned (c ∷ s)

-- The slice panics on a name of fewer than 6 bytes.
unfoldable pub get_vmss_instance_id : List ℕ → Outcome (Result String ℕ)
unfolding parse_int36
get_vmss_instance_id hostname =
    if ltb (length hostname) 6
    then panicked slice_out_of_range
    else returned (parse_int36 (drop (length hostname - 6) hostname))

-- vmss_test.go: "daysh85d200001D"
abbrev test_host : List ℕ
test_host =
    b'd' ∷ b'a' ∷ b'y' ∷ b's' ∷ b'h' ∷ b'8' ∷ b'5' ∷ b'd' ∷ b'2' ∷ b'0' ∷ b'0' ∷ b'0' ∷ b'0' ∷ b'1'
    ∷ b'D' ∷ []

test_host_id : get_vmss_instance_id test_host ≡ returned (ok 49)
unfolding get_vmss_instance_id
test_host_id = refl
