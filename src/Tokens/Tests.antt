-- ===== src/Tokens/Tests.antt =====
-- Tokens created, replaced and verified at a fixed setting, and the theorems at it.
use bankr_integration.Prelude.{◌≡◌, refl, true, false, none, some, List, [], ◌∷◌, arith}
use bankr_integration.Js.Text.{Text, txt, ◌===◌, includes, lower, is_empty, starts_with}
use bankr_integration.Js.Number.{Number, finite, pos}
use bankr_integration.Js.Pattern.{test_whole, times, is_lower_hex, is_word}
use bankr_integration.Js.Host.{Host}
use bankr_integration.Fixtures.{stamp_host}
use bankr_integration.Tokens.Types.{
  McpTokenRecord, Setting, NewToken, allowed_mcp_scopes, default_scope, normalize_from,
  normalize_mcp_scopes, token_id,
}
use bankr_integration.Tokens.Store.{
  hash_token, token_text, persist, create_with, revoke_wallet, new_record, create_mcp_token,
  is_expired, is_match, mark_used, verify_record, verify_hash, verify_mcp_token,
}
use bankr_integration.Tokens.Single.{
  IsSingle, TokenCall, creates, revokes, rotates, verifies, run_all, run_all-IsSingle,
}
use bankr_integration.Tokens.Verify.{IsValid, verified_record, verify_mcp_token-IsValid}

-- A host whose dates print as a letter.
abbrev dated_host : Host
dated_host = record stamp_host { print_date = λ n. txt "t" }

abbrev setting : Setting
setting = record { key = some (txt "k"); now = finite (pos 1); write_fails = false }

abbrev broken : Setting
broken = record setting { write_fails = true }

abbrev fresh : NewToken
fresh = record {
  wallet = txt "0xAB";
  id = txt "0123456789abcdef01";
  body = txt "ABCDEFGHIJKLMNOPQRSTUVWXYZ012345_-";
  label = txt "agent";
  scopes = [];
  expires_at = none;
}

abbrev calls : List TokenCall
calls =
    creates setting fresh
    ∷ creates broken fresh
    ∷ rotates setting (txt "0xab") (txt "0123456789abcdef01") (txt "b") (txt "c")
    ∷ verifies setting (txt "leo_mcp_") [] none
    ∷ revokes setting (txt "0xab") (txt "b")
    ∷ []

dates : (n : Number) → is_empty (dated_host.print_date n) ≡ false
unfolding is_empty txt
dates n = refl

run_all-IsSingle_example : IsSingle (run_all dated_host calls [])
run_all-IsSingle_example = run_all-IsSingle dated_host dates calls [] (λ w. omega arith)

abbrev created : McpTokenRecord
created = record {
  id = txt "0123456789abcdef01";
  wallet = txt "0xab";
  label = txt "agent";
  token_hash = txt "m";
  scopes = txt "graph:read" ∷ [];
  created_at = txt "t";
  expires_at = none;
  revoked_at = none;
  last_used_at = none;
  last_used_tool = none;
}

abbrev token : Text
token = txt "leo_mcp_0123456789abcdef01_ABCDEFGHIJKLMNOPQRSTUVWXYZ012345_-"

token_runs : Unit {0}
unfolding txt ◌===◌ includes lower is_empty starts_with test_whole times is_lower_hex is_word
    allowed_mcp_scopes default_scope normalize_from normalize_mcp_scopes hash_token token_text
    persist create_with revoke_wallet new_record create_mcp_token token_id is_expired is_match
    mark_used verify_record verify_hash verify_mcp_token
token_runs = tt

token_created : (create_mcp_token dated_host setting fresh []).1 ≡ created ∷ []
unfolding token_runs
token_created = refl

token_verified :
    verified_record
      (verify_mcp_token dated_host setting token (txt "graph:read" ∷ []) none (created ∷ [])).0
    ≡ some (mark_used dated_host (txt "t") none created)
unfolding token_runs
token_verified = refl

verify_mcp_token-IsValid_example :
    (r : McpTokenRecord) × IsValid dated_host setting
      (txt "graph:read" ∷ [])
      none
      token
      (created ∷ [])
      r
    × (mark_used dated_host (txt "t") none created ≡ mark_used dated_host (txt "t") none r)
verify_mcp_token-IsValid_example =
    verify_mcp_token-IsValid dated_host setting (txt "graph:read" ∷ []) none token (created ∷ [])
      {u = mark_used dated_host (txt "t") none created} token_verified
