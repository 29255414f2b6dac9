-- ===== src/Approval/Types.antt =====
-- The records of approved operations (the `BaseMcpApproved…` types of services/gateway/src/mcp-base.ts)
-- and the options of the approval store.
use bankr_integration.Prelude.{Bool, Option}
use bankr_integration.Js.Text.{Text}
use bankr_integration.Js.Number.{Number}
use bankr_integration.Js.Json.{Json}

pub data SignatureScheme : Type 0 where
  hmac_sha256 unsigned_local_v1 : SignatureScheme

pub record SealedTransaction : Type 0 where
  pub chain_id : Number
  pub to : Text
  pub calldata : Text
  pub value : Option Text

pub record ContractOperation : Type 0 where
  -- Whether the record carries its optional `operation_kind`.
  pub tagged : Bool
  pub contract : Text
  pub method : Text
  pub calldata_hash : Text
  pub purpose : Option Text
  -- A string or a number.
  pub value : Option Json
  pub transaction : SealedTransaction

pub record ValueMovement : Type 0 where
  pub recipient : Text
  pub token_address : Text
  pub amount : Text
  pub is_native_token : Bool

pub record AssetExchange : Type 0 where
  pub from_token : Text
  pub to_token : Text
  pub amount : Text
  pub min_buy_amount : Text

pub data OperationBody : Type 0 where
  contract_operation : ContractOperation → OperationBody
  value_movement : ValueMovement → OperationBody
  asset_exchange : AssetExchange → OperationBody

-- The fields that `commonApprovalFields` checks; `status` is "approved" by its type.
pub record ApprovedHeader : Type 0 where
  pub approval_id : Text
  pub passport_id : Text
  pub chain_id : Number
  pub human_approval_receipt : Text
  pub approval_hash : Text
  pub nonce : Text
  pub expires_at : Option Text

pub record ApprovedOperation : Type 0 where
  pub header : ApprovedHeader
  pub open header use *
  pub signature : Option Text
  pub signature_scheme : SignatureScheme
  pub operation : OperationBody

pub record ApprovalReservation : Type 0 where
  pub approval_id : Text
  pub passport_id : Text
  pub chain_id : Number
  pub approval_hash : Text
  pub nonce : Text
  pub reservation_id : Text

pub record ApprovalLookup : Type 0 where
  pub approval_id : Text
  pub passport_id : Text
  pub chain_id : Number

pub record ApprovalStoreOptions : Type 0 where
  pub signing_secret : Option Text
  pub usage_store_path : Option Text
  pub audit_log_path : Option Text
