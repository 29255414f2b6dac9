-- ===== src/Passport/UpdateTests.antt =====
-- The updated document and its plan at a fixed input.
use bankr_integration.Prelude.{◌≡◌, refl, true, none, some, [], ◌∷◌, transfer_some}
use bankr_integration.Js.Text.{txt, ◌===◌, trim, is_empty, is_space, lower_unit}
use bankr_integration.Js.Number.{finite, pos, whole, num_eq, is_finite}
use bankr_integration.Js.Pattern.{test, lit_i, test_whole, is_digit}
use bankr_integration.Js.Json.{str, Fields, end, field, get, put, text_of}
use bankr_integration.Js.Objects.{is_str, copy}
use bankr_integration.Js.Host.{Host}
use bankr_integration.Fixtures.{stamp_host}
use bankr_integration.Approval.Usage.{returned}
use bankr_integration.Passport.Document.{parse_capability_grants}
use bankr_integration.Passport.Update.{
  ReadOnlyGrantInput, built, new_document, new_grant, with_expiry, or_read_only, passport_matches,
  document_issues, issues_of, grants_in, objects_of, grant_array, grant_issues, issue_if, is_number,
  is_other_policy, is_dangerous, dangerous_capability, validate_expiry, expires_after, result_of,
  build_read_only_grant_document,
}
use bankr_integration.Passport.Plan.{
  Chain, Plan, ready_to_sign, execution_allowed, is_ready, grant_update_execution_guard, encode,
  signed, data_json_uri, normalize_address, plan_signer, plan_result, plan_addresses,
  summarize_grant_update_plan,
}
use bankr_integration.Passport.Updated.{expected_grant, given, build_read_only_grant_document-parse}
use bankr_integration.Passport.Execution.{IsBacked, summarize-guard}

abbrev dated_host : Host
dated_host = record stamp_host { parse_date = λ s. finite (pos 9) }

abbrev old : Fields
old = field (txt "passport_id") (str (txt "7")) (field (txt "agent_id") (str (txt "leonardo")) end)

abbrev update : ReadOnlyGrantInput
update = record {
  passport_id = txt "7";
  current_document = old;
  expires_at = some (txt "2027");
  policy_hash = none;
}

update_runs : Unit {0}
unfolding txt ◌===◌ trim is_empty is_space whole num_eq is_finite test lit_i lower_unit test_whole
    is_digit get put is_str copy text_of new_document new_grant with_expiry or_read_only
    passport_matches document_issues issues_of grants_in objects_of grant_array grant_issues
    issue_if is_number is_other_policy is_dangerous dangerous_capability validate_expiry
    expires_after result_of build_read_only_grant_document
update_runs = tt

updated :
    build_read_only_grant_document dated_host update
    ≡ built (new_document dated_host update) (txt "h") (txt "h")
unfolding update_runs
updated = refl

year_trimmed : trim (txt "2027") ≡ txt "2027"
unfolding update_runs
year_trimmed = refl

build_read_only_grant_document-parse_example :
    parse_capability_grants dated_host
      (get (txt "capability_grants") (new_document dated_host update))
    ≡ some (some (expected_grant (given dated_host (some (txt "2027"))) ∷ []))
build_read_only_grant_document-parse_example =
    build_read_only_grant_document-parse dated_host update (new_document dated_host update)
      (txt "h") (txt "h") updated (λ t e. transfer_some (λ x. trim x ≡ x) e year_trimmed)

abbrev toy_chain : Chain
toy_chain = record {
  is_address = λ s. true;
  get_address = λ s. s;
  encode_set_agent_uri = λ registry id uri. id;
  base64 = λ s. s;
}

abbrev plan : Plan
plan = record {
  status = ready_to_sign;
  transaction = some (record {
    to = some (txt "0x1");
    chain_id = 8453;
    calldata = txt "7";
    data_sha256 = txt "h";
  });
}

planned :
    summarize_grant_update_plan dated_host toy_chain 8453
      (txt "0x1")
      (some (txt "0x2"))
      (some (txt "0x2"))
      update
    ≡ returned plan
unfolding update_runs encode signed data_json_uri normalize_address plan_signer plan_result
    plan_addresses summarize_grant_update_plan
planned = refl

guarded : grant_update_execution_guard ready_to_sign true true ≡ execution_allowed
unfolding grant_update_execution_guard is_ready
guarded = refl

summarize-guard_example :
    (true ≡ true)
    × (true ≡ true)
    × IsBacked dated_host toy_chain update
        (normalize_address dated_host toy_chain (some (txt "0x2")))
        (normalize_address dated_host toy_chain (some (txt "0x2")))
summarize-guard_example =
    summarize-guard dated_host toy_chain 8453 (txt "0x1") (some (txt "0x2")) (some (txt "0x2"))
      update plan true true planned guarded
