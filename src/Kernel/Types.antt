-- ===== src/Kernel/Types.antt =====
-- The data types of packages/identity-kernel/src/index.ts.
use bankr_integration.Prelude.{Bool, true, false, Option, List}
use bankr_integration.Js.Text.{Text, txt}
use bankr_integration.Js.Json.{Json}

pub data IdentityVerdictKind : Type 0 where
  allow refuse transform ask_clarifying require_human downgrade_tools : IdentityVerdictKind

-- The string that the source has for each kind.
unfoldable pub kind_text : IdentityVerdictKind → Text
unfolding txt
kind_text allow = txt "allow"
kind_text refuse = txt "refuse"
kind_text transform = txt "transform"
kind_text ask_clarifying = txt "ask_clarifying"
kind_text require_human = txt "require_human"
kind_text downgrade_tools = txt "downgrade_tools"

pub record IdentityEnvelope : Type 0 where
  pub agent_id : Text
  pub passport_id : Text
  pub user_request : Text
  pub active_system_prompt_hash : Text
  pub authority_scope : List Text
  pub requested_tools : Option (List Text)
  pub memory_refs : Option (List Text)
  pub risk_context : Text

-- `Omit<IdentityVerdict, "receipt_hash">`.
pub record VerdictBody : Type 0 where
  pub verdict : IdentityVerdictKind
  pub reason : Text
  pub safe_instruction : Text
  pub tool_grants : List Text
  pub tool_denials : List Text
  pub active_constraints : List Text

pub record IdentityVerdict : Type 0 where
  pub body : VerdictBody
  pub open body use *
  pub receipt_hash : Text

pub record Receipt : Type 0 where
  pub stage : Text
  pub hash : Text
  pub agent_id : Text
  pub passport_id : Text
  pub verdict : IdentityVerdictKind
  pub reason : Text

pub record ToolCallRequest : Type 0 where
  pub name : Text
  -- `undefined` where the call has no arguments.
  pub args : Json

pub record ContextEvaluationRequest : Type 0 where
  pub kind : Text
  pub text : Text

pub record OutputEvaluationRequest : Type 0 where
  pub draft_output : Text

-- The verdicts that stop a turn: `isBlocking` of services/gateway/src/identity-kernel-gate.ts and of
-- services/gateway/src/mcp-base.ts.
abbrev pub blocks : IdentityVerdictKind → Bool
blocks refuse = true
blocks require_human = true
blocks ask_clarifying = true
blocks k = false

unfoldable pub is_blocking : IdentityVerdict → Bool
is_blocking v = blocks v.verdict
