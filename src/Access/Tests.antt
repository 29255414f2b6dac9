-- ===== src/Access/Tests.antt =====
-- The session token, the free prompts and the rate limit at fixed inputs.
use bankr_integration.Prelude.{
  ◌≡◌, refl, ℕ, ◌≤◌, arith, true, false, none, some, List, [], ◌∷◌, length, filter,
}
use bankr_integration.Js.Text.{Text, txt, lower, ◌===◌, is_empty, join}
use bankr_integration.Js.Number.{finite, pos, whole, is_finite, num_lt}
use bankr_integration.Js.Host.{Host}
use bankr_integration.Approval.Usage.{returned}
use bankr_integration.Fixtures.{stamp_host}
use bankr_integration.Access.Session.{
  version, purpose, session_payload, create_session_token, split_dots, has_ended, verify_parts,
  verify_session_token,
}
use bankr_integration.Access.Holder.{verify_session_token-IsSigned, verify_session_token-create}
use bankr_integration.Access.FreePrompts.{
  remaining, consumes, restarts, replies, Freebies, counts, load, used_by,
}
use bankr_integration.Access.Metering.{meter_replies, replies-meter}
use bankr_integration.Access.RateLimit.{in_window, after_requests}
use bankr_integration.Access.Window.{times_of, rate_limit-bound}

-- A host that prints every number as 7 and reads every text as 7.
abbrev seven_host : Host
seven_host = record stamp_host { parse_number = λ s. finite (pos 7); print_number = λ n. txt "7" }

abbrev token : Text
token = txt "leo2.0xab.7.holder.m"

session_runs : Unit {0}
unfolding txt ◌===◌ lower join is_empty session_payload create_session_token split_dots has_ended
    verify_parts verify_session_token is_finite num_lt
session_runs = tt

token_verified :
    verify_session_token seven_host (finite (pos 5)) (some (txt "k")) (some token)
    ≡ some (txt "0xab")
unfolding session_runs
token_verified = refl

verify_session_token-IsSigned_example :
    (wallet exp : Text) × (token
      ≡ join (txt ".") (
          version
          ∷ wallet
          ∷ exp
          ∷ purpose
          ∷ seven_host.hmac_hex (txt "k") (session_payload wallet exp)
          ∷ []))
    × (txt "0xab" ≡ lower wallet)
    × (is_finite (seven_host.parse_number exp) ≡ true)
    × (num_lt (seven_host.parse_number exp) (finite (pos 5)) ≡ false)
verify_session_token-IsSigned_example =
    verify_session_token-IsSigned seven_host (finite (pos 5)) (txt "k") token (txt "0xab")
      token_verified

token_created :
    create_session_token seven_host (some (txt "k")) (txt "0xAB") (finite (pos 7)) ≡ returned token
unfolding session_runs
token_created = refl

verify_session_token-create_example :
    verify_session_token seven_host (finite (pos 5)) (some (txt "k")) (some token)
    ≡ some (lower (txt "0xAB"))
unfolding session_runs
verify_session_token-create_example =
    verify_session_token-create seven_host (finite (pos 5)) (txt "k") (txt "0xAB") token
      (finite (pos 7)) token_created refl refl (λ s. refl) refl refl refl

abbrev unread : Freebies
unread = record { used = none; file = none }

replies-meter_example :
    replies 5 (consumes (txt "0xAB") ∷ restarts ∷ remaining (txt "0xab") ∷ []) unread
    ≡ meter_replies 5 (consumes (txt "0xAB") ∷ restarts ∷ remaining (txt "0xab") ∷ []) (λ w. 0)
unfolding counts load used_by
replies-meter_example =
    replies-meter 5 (consumes (txt "0xAB") ∷ restarts ∷ remaining (txt "0xab") ∷ []) unread (λ w. 0)
      (λ w. (refl, refl))

abbrev burst : List (Text × ℕ)
burst = (txt "a", 30) ∷ (txt "a", 20) ∷ (txt "b", 20) ∷ (txt "a", 10) ∷ []

rate_limit-bound_example :
    length
      (filter (in_window 60000 40) (times_of (txt "a") (after_requests 60000 (whole 2) burst).0))
    ≤ 2
rate_limit-bound_example =
    rate_limit-bound 60000 2 burst 40 (txt "a")
      (omega arith, (omega arith, (omega arith, (omega arith, tt))))
