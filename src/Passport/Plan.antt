-- ===== src/Passport/Plan.antt =====
-- The plan of the transaction that publishes an updated document, and the guard of its execution. The
-- addresses are normalised by a library, which is an argument.
use bankr_integration.Prelude.{ℕ, Bool, true, false, not, Option, none, some, ◌++◌, if◌then◌else◌}
use bankr_integration.Js.Text.{Text, txt, ◌===◌, trim, is_empty}
use bankr_integration.Js.Pattern.{test_whole, plus, is_digit}
use bankr_integration.Js.Json.{obj, Fields, stringify, stable}
use bankr_integration.Js.Host.{Host}
use bankr_integration.Approval.Usage.{Outcome, returned, threw}
use bankr_integration.Passport.Update.{
  ReadOnlyGrantInput, ReadOnlyGrantResult, built, refused, build_read_only_grant_document,
}

pub data PlanStatus : Type 0 where
  ready_to_sign blocked_missing_signer blocked_signer_not_owner : PlanStatus
  blocked_invalid_document blocked_invalid_address : PlanStatus

pub data GuardStatus : Type 0 where
  execution_allowed blocked_plan_not_ready blocked_execute_not_requested : GuardStatus
  blocked_missing_metadata_mutation_ack : GuardStatus

unfoldable pub is_ready : PlanStatus → Bool
is_ready ready_to_sign = true
is_ready status = false

-- `grantUpdateExecutionGuard`
unfoldable pub grant_update_execution_guard : PlanStatus → Bool → Bool → GuardStatus
grant_update_execution_guard status requested acknowledged =
    if not (is_ready status)
    then blocked_plan_not_ready
    else if not requested
    then blocked_execute_not_requested
    else if not acknowledged
    then blocked_missing_metadata_mutation_ack
    else execution_allowed

-- What the program takes from `viem` and from `Buffer`.
pub record Chain : Type 0 where
  pub is_address : Text → Bool
  pub get_address : Text → Text
  pub encode_set_agent_uri : Option Text → Text → Text → Text
  pub base64 : Text → Text

pub record Transaction : Type 0 where
  pub to : Option Text
  pub chain_id : ℕ
  pub calldata : Text
  pub data_sha256 : Text

pub record Plan : Type 0 where
  pub status : PlanStatus
  pub transaction : Option Transaction

unfoldable pub blocked : PlanStatus → Outcome Plan
blocked status = returned (record { status = status; transaction = none })

module _ (host : Host) (chain : Chain) where
  -- `normalizeAddress`; `none` for no address.
  unfoldable pub normalize_address : Option Text → Outcome (Option Text)
  normalize_address none = returned none
  normalize_address (some value) =
      if is_empty (trim value)
      then returned none
      else if chain.is_address value
      then returned (some (chain.get_address value))
      else threw (txt "invalid address")

  -- `encodeSetAgentUri`
  unfoldable pub encode : Option Text → Text → Text → Outcome Text
  encode registry passport_id uri =
      if test_whole (plus is_digit) passport_id
      then returned (chain.encode_set_agent_uri registry passport_id uri)
      else threw (txt "passport_id must be decimal")

  -- `dataJsonUri`
  unfoldable pub data_json_uri : Fields → Text
  data_json_uri document =
      txt "data:application/json;base64,"
      ++ chain.base64 (stringify host (stable host (obj document)))

  unfoldable pub signed : ℕ → Option Text → Outcome Text → Outcome Plan
  signed chain_id registry (threw e) = threw e
  signed chain_id registry (returned calldata) = returned (record {
    status = ready_to_sign;
    transaction = some (record {
      to = registry;
      chain_id = chain_id;
      calldata = calldata;
      data_sha256 = host.sha256_hex calldata;
    });
  })

  -- A plan with a document: the signer must be known and be the owner.
  unfoldable pub plan_signer :
      ℕ → Text → Option Text → Option Text → Option Text → Fields → Outcome Plan
  unfolding blocked signed encode data_json_uri
  plan_signer chain_id passport_id registry (some owner) (some signer) document =
      if owner === signer
      then signed chain_id registry (encode registry passport_id (data_json_uri document))
      else blocked blocked_signer_not_owner
  plan_signer chain_id passport_id registry owner signer document = blocked blocked_missing_signer

  unfoldable pub plan_result :
      ℕ → Text → Option Text → Option Text → Option Text → ReadOnlyGrantResult → Outcome Plan
  unfolding blocked
  plan_result chain_id passport_id registry owner signer (built document before after) =
      plan_signer chain_id passport_id registry owner signer document
  plan_result chain_id passport_id registry owner signer (refused reason issues before) =
      blocked blocked_invalid_document

  unfoldable pub plan_addresses :
      ℕ
      → ReadOnlyGrantInput
      → Outcome (Option Text)
      → Outcome (Option Text)
      → Outcome (Option Text)
      → Outcome Plan
  unfolding blocked
  plan_addresses chain_id input (returned registry) (returned owner) (returned signer) =
      plan_result chain_id input.passport_id registry owner signer
        (build_read_only_grant_document host input)
  plan_addresses chain_id input registry owner signer = blocked blocked_invalid_address

  -- `summarizeGrantUpdatePlan`: its status and its transaction.
  unfoldable pub summarize_grant_update_plan :
      ℕ → Text → Option Text → Option Text → ReadOnlyGrantInput → Outcome Plan
  summarize_grant_update_plan chain_id registry owner signer input =
      plan_addresses chain_id input (normalize_address (some registry)) (normalize_address owner)
        (normalize_address signer)
