-- ===== src/Text.antt =====
-- strings.Split(s, ",") and strings.Join(words, ","), as service/controllers.go and cmd/main.go use them
-- for lists of agent addresses.
use Prim.Native.Char.{Char, code}
use Prim.Native.String.{String, ◌++◌ as ◌^^◌}
use text.Mathlib.TextLemmas.{nil-append, cons-append}
use sigbench.Prelude.{
  ℕ, ◌≡◌, ◌≢◌, refl, ap, ◌∙◌, false, List, [], ◌∷◌, arith, ◌==◌, if◌then◌else◌, All,
}

abbrev pub comma : ℕ
comma = b','

-- The first word grows by a character.
abbrev pub cons_first : Char → List String → List String
cons_first c [] = String.◌∷◌ c String.[] ∷ []
cons_first c (w ∷ ws) = String.◌∷◌ c w ∷ ws

unfoldable pub split : String → List String
split String.[] = String.[] ∷ []
split (String.◌∷◌ c s) =
    let rest = split s in if code c == comma then String.[] ∷ rest else cons_first c rest

unfoldable pub join : List String → String
join [] = String.[]
join (w ∷ []) = w
join (w ∷ v ∷ ws) = ◌^^◌ w (String.◌∷◌ "," (join (v ∷ ws)))

-- No comma stands in the text.
abbrev pub IsPlain : String → Type 0
IsPlain String.[] = Unit {0}
IsPlain (String.◌∷◌ c s) = ((code c == comma) ≡ false) × IsPlain s

split-ne-nil : (s : String) → split s ≢ []
unfolding split
split-ne-nil String.[] e = cc
split-ne-nil (String.◌∷◌ c s) e = grind arith

split-plain : (w : String) → IsPlain w → split w ≡ w ∷ []
unfolding split
split-plain String.[] p = refl
split-plain (String.◌∷◌ c s) p = rw (p.0, split-plain s p.1)

split-append_comma : (w s : String) → IsPlain w → split (◌^^◌ w (String.◌∷◌ "," s)) ≡ w ∷ split s
unfolding split
split-append_comma String.[] s p = rw (nil-append (String.◌∷◌ "," s))
split-append_comma (String.◌∷◌ c w) s p =
    rw (cons-append c w (String.◌∷◌ "," s), p.0, split-append_comma w s p.1)

-- The list of addresses that HandleIndex shows, if it is not empty and no address holds a comma, is
-- the list that HandleJobCreate reads from it.
pub split-join :
    (w : String) (ws : List String) → All IsPlain (w ∷ ws) → split (join (w ∷ ws)) ≡ w ∷ ws
unfolding join
split-join w [] p = split-plain w p.0
split-join w (v ∷ ws) p =
    split-append_comma w (join (v ∷ ws)) p.0 ∙ ap (◌∷◌ w) (split-join v ws p.1)
