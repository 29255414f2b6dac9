-- ===== src/Js/Pattern.antt =====
-- Regular expressions: those constructs that the source's patterns use, with a matcher that decides
-- `pattern.test(text)`.
use bankr_integration.Prelude.{
  ℕ, zero, suc, String, Bool, true, false, not, ◌&&◌, ◌||◌, Option, none, some, [], ◌∷◌, leb, ◌==◌,
}
use bankr_integration.Js.Text.{Text, txt, lower_unit}

pub data Re : Type 0 where
  eps : Re
  -- One unit that passes a test.
  one : (ℕ → Bool) → Re
  -- `[…]*`
  star : (ℕ → Bool) → Re
  -- `\b`
  bound : Re
  -- `$`
  eot : Re
  seq alt : Re → Re → Re

-- `\w`
unfoldable pub is_word : ℕ → Bool
is_word c =
    (leb b'0' c && leb c b'9')
    || (leb b'A' c && leb c b'Z')
    || c == b'_'
    || (leb b'a' c && leb c b'z')

word_before : Option ℕ → Bool
word_before none = false
word_before (some c) = is_word c

word_after : Text → Bool
word_after [] = false
word_after (c ∷ s) = is_word c

-- `\b` holds where exactly one of the neighbours is a word character.
at_bound : Option ℕ → Text → Bool
unfolding word_before word_after is_word
at_bound p s = elim (word_before p) [ true ↦ not (word_after s) | false ↦ word_after s ]

is_end : Text → Bool
is_end [] = true
is_end (c ∷ s) = false

step_one : (ℕ → Bool) → Text → (Option ℕ → Text → Bool) → Bool
step_one cls [] k = false
step_one cls (c ∷ s) k = cls c && k (some c) s

run_star : (ℕ → Bool) → (Option ℕ → Text → Bool) → Option ℕ → Text → Bool
run_star cls k p [] = k p []
run_star cls k p (c ∷ s) = k p (c ∷ s) || (cls c && run_star cls k (some c) s)

-- Matching from here on, with what must follow.
matches : Re → (Option ℕ → Text → Bool) → Option ℕ → Text → Bool
unfolding at_bound is_end step_one run_star
matches eps k p s = k p s
matches (one cls) k p s = step_one cls s k
matches (star cls) k p s = run_star cls k p s
matches bound k p s = at_bound p s && k p s
matches eot k p s = is_end s && k p s
matches (seq a b) k p s = matches a (matches b k) p s
matches (alt a b) k p s = matches a k p s || matches b k p s

search_from : Re → Option ℕ → Text → Bool
unfolding matches
search_from r p [] = matches r (λ _ _. true) p []
search_from r p (c ∷ s) = matches r (λ _ _. true) p (c ∷ s) || search_from r (some c) s

-- `/r/.test(s)`.
unfoldable pub test : Re → Text → Bool
unfolding search_from
test r s = search_from r none s

-- `/^r$/.test(s)`.
unfoldable pub test_whole : Re → Text → Bool
unfolding matches
test_whole r s = matches (seq r eot) (λ _ _. true) none s

-- A literal under the flag `i`: units are compared after folding the ASCII letters.
same_folded : ℕ → ℕ → Bool
unfolding lower_unit
same_folded c d = lower_unit c == lower_unit d

unit_list : Text → Re
unfolding same_folded
unit_list [] = eps
unit_list (c ∷ s) = seq (one (same_folded c)) (unit_list s)

unfoldable pub lit_i : String → Re
unfolding unit_list txt
lit_i w = unit_list (txt w)

-- `[…]+`
abbrev pub plus : (ℕ → Bool) → Re
plus cls = seq (one cls) (star cls)

-- `r?`
abbrev pub opt : Re → Re
opt r = alt r eps

-- `r{n}`
unfoldable pub times : ℕ → Re → Re
times zero r = eps
times (suc n) r = seq r (times n r)

unfoldable pub is_hex : ℕ → Bool
is_hex c = (leb b'0' c && leb c b'9') || (leb b'a' c && leb c b'f') || (leb b'A' c && leb c b'F')

unfoldable pub is_lower_hex : ℕ → Bool
is_lower_hex c = (leb b'0' c && leb c b'9') || (leb b'a' c && leb c b'f')

unfoldable pub is_digit : ℕ → Bool
is_digit c = leb b'0' c && leb c b'9'

exactly : ℕ → ℕ → Bool
exactly c d = c == d

-- `0x` followed by what `r` matches.
unfoldable pub hex_prefixed : Re → Re
unfolding exactly
hex_prefixed r = seq (one (exactly b'0')) (seq (one (exactly b'x')) r)
