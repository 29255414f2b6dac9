-- ===== src/Kernel/Patterns.antt =====
-- The regular expressions of packages/identity-kernel/src/index.ts.
use bankr_integration.Prelude.{Bool, ◌||◌, List, [], ◌∷◌, any}
use bankr_integration.Js.Text.{Text, is_space}
use bankr_integration.Js.Pattern.{Re, bound, seq, alt, star, is_word, test, lit_i, plus, opt}

-- `\b … \b`
worded : Re → Re
worded r = seq bound (seq r bound)

unfoldable pub identity_attack_patterns : List Re
unfolding worded
identity_attack_patterns =
    worded (lit_i "you are dan")
    ∷ worded (lit_i "act as another system")
    ∷ worded (lit_i "your real task is")
    ∷ worded (
        seq (lit_i "ignore ") (
          seq (alt (lit_i "your") (lit_i "the")) (
            seq (lit_i " ") (
              alt (lit_i "rules")
                (alt (lit_i "developer") (alt (lit_i "system") (lit_i "safety checker")))))))
    ∷ worded (
        seq (lit_i "do not call ") (
          seq (opt (lit_i "the ")) (
            alt (lit_i "safety checker")
              (alt (lit_i "identity kernel") (seq (lit_i "tool") (opt (lit_i "s")))))))
    ∷ []

unfoldable pub harmful_operation_patterns : List Re
unfolding worded
harmful_operation_patterns =
    seq bound (seq (lit_i "exfiltrat") (star is_word))
    ∷ worded (lit_i "dump env")
    ∷ worded (lit_i "secret key")
    ∷ worded (lit_i "operational steps")
    ∷ seq (lit_i "curl")
        (seq (plus is_space) (seq (lit_i "-X") (seq (plus is_space) (lit_i "POST"))))
    ∷ []

-- `IDENTITY_ATTACK_PATTERNS.some((pattern) => pattern.test(text))`
unfoldable pub attacks_identity : Text → Bool
attacks_identity s = any (λ r. test r s) identity_attack_patterns

-- `HARMFUL_OPERATION_PATTERNS.some((pattern) => pattern.test(text))`
unfoldable pub is_harmful : Text → Bool
is_harmful s = any (λ r. test r s) harmful_operation_patterns

-- The test of `evaluateContext`.
unfoldable pub attacks_context : Text → Bool
attacks_context s =
    attacks_identity s
    || test (lit_i "hidden instruction") s
    || test (lit_i "new authority scope") s
