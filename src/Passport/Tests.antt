-- ===== src/Passport/Tests.antt =====
-- A passport that is resolved, and the theorems on it.
use bankr_integration.Prelude.{◌≡◌, refl, none, some, [], ◌∷◌, All}
use bankr_integration.Js.Text.{txt, ◌===◌, lower, trim, is_empty, is_space}
use bankr_integration.Js.Json.{str, arr, obj, nil, cons, Fields, end, field, get}
use bankr_integration.Fixtures.{toy_host}
use bankr_integration.Approval.Usage.{returned}
use bankr_integration.Mcp.Session.{CapabilityGrant, BaseMcpPassport}
use bankr_integration.Passport.Fields.{
  normalized, same_wallet, verified_wallet, non_empty_string, all_strings, string_array,
  optional_string_array, optional_string_or_number, optional_boolean, optional_chain_id,
  optional_iso_date, optional_string,
}
use bankr_integration.Passport.Document.{
  grant_of, parse_capability_grant, all_grants, parse_capability_grants, has_matching_registration,
  claims_passport, states_wallets, parse_passport_document, PassportClient, agent_wallet_of,
  document_of, resolve_passport,
}
use bankr_integration.Passport.Owner.{
  IsOwnedBy, IsDocumentOf, NamesNoAsset, resolve_passport-IsOwnedBy, resolve_passport-NamesNoAsset,
}

abbrev granting : Fields
granting =
    field (txt "capability") (str (txt "base.x402.pay"))
      (field (txt "allowed_assets") (arr (cons (str (txt "0x1")) nil)) end)

abbrev document : Fields
document = field (txt "passport_id") (str (txt "7")) (
    field (txt "agent_id") (str (txt "leonardo")) (
      field (txt "active_system_prompt_hash") (str (txt "h")) (
        field (txt "authority_scope") (arr (cons (str (txt "search")) nil))
          (field (txt "capability_grants") (arr (cons (obj granting) nil)) end))))

abbrev client : PassportClient
client = record {
  agent_registry = none;
  owner_of = λ id. returned (some (txt "0xAB"));
  get_agent_wallet = none;
  token_uri = λ id. returned (some (txt "u"));
  fetch_passport_document = λ uri. returned (obj document);
}

abbrev grant : CapabilityGrant
grant = record {
  capability = txt "base.x402.pay";
  chain_id = none;
  allowed_recipients = none;
  allowed_assets = none;
  allowed_contracts = none;
  allowed_methods = none;
  max_per_call = none;
  max_per_day = none;
  requires_human = none;
  expires_at = none;
  policy_hash = none;
}

abbrev passport : BaseMcpPassport
passport = record {
  agent_id = txt "leonardo";
  passport_id = txt "7";
  agent_wallet = none;
  active_system_prompt_hash = txt "h";
  authority_scope = txt "search" ∷ [];
  risk_context = some (txt "public_chat");
  capability_grants = some (grant ∷ []);
}

resolved : resolve_passport toy_host client (txt "0xab ") (txt "7") ≡ some passport
unfolding txt ◌===◌ lower trim is_empty is_space get normalized same_wallet verified_wallet
    non_empty_string all_strings string_array optional_string_array optional_string_or_number
    optional_boolean optional_chain_id optional_iso_date optional_string grant_of
    parse_capability_grant all_grants parse_capability_grants has_matching_registration
    claims_passport states_wallets parse_passport_document agent_wallet_of document_of
    resolve_passport
resolved = refl

resolve_passport-IsOwnedBy_example :
    IsOwnedBy client (trim (txt "0xab ")) (trim (txt "7"))
    × (agent_wallet_of client (trim (txt "7")) ≡ some none)
    × ((fs : Fields) × (document_of client (trim (txt "7")) ≡ some (obj fs))
        × IsDocumentOf toy_host none fs (trim (txt "7")) (trim (txt "0xab ")) none passport)
resolve_passport-IsOwnedBy_example =
    resolve_passport-IsOwnedBy toy_host client (txt "0xab ") (txt "7") passport resolved

resolve_passport-NamesNoAsset_example : All NamesNoAsset (grant ∷ [])
resolve_passport-NamesNoAsset_example =
    resolve_passport-NamesNoAsset toy_host client (txt "0xab ") (txt "7") passport (grant ∷ [])
      resolved refl
