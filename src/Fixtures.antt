-- ===== src/Fixtures.antt =====
-- Data that the tests of several modules share.
use bankr_integration.Prelude.{true, false, none, some, [], ◌∷◌, ◌++◌}
use bankr_integration.Js.Text.{txt}
use bankr_integration.Js.Number.{nan, finite, pos}
use bankr_integration.Js.Host.{Host}
use bankr_integration.Approval.Types.{
  ApprovedOperation, ApprovalStoreOptions, ContractOperation, hmac_sha256, contract_operation,
}
use bankr_integration.Approval.Usage.{Usage}
use bankr_integration.Kernel.Types.{IdentityEnvelope}

-- A host for the runs: it parses nothing, and its digest of a text is the text.
abbrev pub toy_host : Host
toy_host = record {
  parse_number = λ s. nan;
  print_number = λ n. [];
  parse_date = λ s. nan;
  print_date = λ n. [];
  sha256_hex = λ s. s;
  hmac_hex = λ key s. key ++ s;
  locale_le = λ s t. true;
}

abbrev pub asker : IdentityEnvelope
asker = record {
  agent_id = txt "leonardo";
  passport_id = txt "7";
  user_request = txt "find precedents for a memory palace";
  active_system_prompt_hash = txt "h";
  authority_scope = txt "answer" ∷ txt "search" ∷ [];
  requested_tools = some (txt "browser" ∷ txt "terminal" ∷ []);
  memory_refs = none;
  risk_context = txt "public_chat";
}

-- A host whose digests are single letters.
abbrev pub stamp_host : Host
stamp_host = record toy_host { sha256_hex = λ s. txt "h"; hmac_hex = λ key s. txt "m" }

abbrev pub options : ApprovalStoreOptions
options = record {
  signing_secret = some (txt " key ");
  usage_store_path = some (txt "usage");
  audit_log_path = none;
}

abbrev pub mint : ContractOperation
mint = record {
  tagged = false;
  contract = txt "0xAbababababababababababababababababababab";
  method = txt "mint";
  calldata_hash = txt "c";
  purpose = none;
  value = none;
  transaction = record {
    chain_id = finite (pos 8453);
    to = txt "0xAbababababababababababababababababababab";
    calldata = txt "0x01";
    value = none;
  };
}

abbrev pub parsed : ApprovedOperation
parsed = record {
  header = record {
    approval_id = txt "a1";
    passport_id = txt "7";
    chain_id = finite (pos 8453);
    human_approval_receipt = txt "r";
    approval_hash = txt "sha256:h";
    nonce = txt "n";
    expires_at = none;
  };
  signature = some (txt "hmac-sha256:m");
  signature_scheme = hmac_sha256;
  operation = contract_operation mint;
}

abbrev pub unused : Usage
unused = record { reserved = λ k. false; consumed = λ k. false; audit = [] }
