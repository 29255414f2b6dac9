-- ===== src/Intake/Tests.antt =====
-- A request that is created at a fixed input.
use bankr_integration.Prelude.{◌≡◌, refl, ◌≤◌, some, List, [], ◌∷◌, ◌++◌, length}
use bankr_integration.Js.Text.{Text, txt, ◌===◌, lower, lower_unit, trim, is_empty, is_space}
use bankr_integration.Js.Pattern.{test_whole, hex_prefixed, times, is_lower_hex, is_hex}
use bankr_integration.Js.Json.{str, undefined}
use bankr_integration.Js.Host.{Host}
use bankr_integration.Fixtures.{toy_host}
use bankr_integration.Approval.Usage.{returned}
use bankr_integration.Intake.Requests.{
  council_plan, IntakeRequest, clean_optional_string, commitment_of,
}
use bankr_integration.Intake.Ledger.{
  IntakeInput, missing, safe_wallet, new_request, store_request, create_keyed, create_for,
  create_intake_request, list_intake_requests, some_text,
}
use bankr_integration.Intake.Created.{create_intake_request-listed}

abbrev digest : Text
digest = txt "abababababababababababababababababababababababababababababababab"

abbrev digest_host : Host
digest_host = record toy_host { hmac_hex = λ key s. digest }

abbrev asked : IntakeInput
asked = record {
  wallet = txt "0xABababababababababababababababababababab";
  kind = council_plan;
  title = str (txt " a plan ");
  brief = str (txt "a brief");
  target = undefined;
}

abbrev queued : IntakeRequest
queued =
    new_request digest_host (txt "k") (txt "intake_1")
      (txt "0xabababababababababababababababababababab") asked (txt "2026")

intake_runs : Unit {0}
unfolding txt ◌===◌ lower lower_unit trim is_empty is_space test_whole hex_prefixed times
    is_lower_hex is_hex safe_wallet create_keyed create_for create_intake_request
    clean_optional_string commitment_of some_text
intake_runs = tt

was_created :
    create_intake_request digest_host (txt "1") (txt "2026") asked missing (some (txt "k"))
    ≡ (returned queued, store_request digest_host queued missing)
unfolding intake_runs
was_created = refl

create_intake_request-listed_example :
    (earlier : List IntakeRequest) × (list_intake_requests digest_host asked.wallet
        (store_request digest_host queued missing)
      ≡ returned (earlier ++ (queued ∷ [])))
    × (length earlier ≤ 199)
unfolding intake_runs
create_intake_request-listed_example =
    create_intake_request-listed digest_host (txt "1") (txt "2026") asked missing (txt "k") queued
      (store_request digest_host queued missing) was_created refl tt refl (λ s. refl)
