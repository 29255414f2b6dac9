-- ===== src/Mcp/Resolve.antt =====
-- Fetching the approval of a governed call (`resolveApprovedValueMovement`,
-- `resolveApprovedAssetExchange`, `resolveApprovedContractOperation`).
use bankr_integration.Prelude.{not, Option, none, some, ◌++◌}
use bankr_integration.Js.Text.{Text, txt, is_empty}
use bankr_integration.Js.Number.{Number, is_finite}
use bankr_integration.Js.Json.{Fields, get, clean, to_number}
use bankr_integration.Js.Host.{Host}
use bankr_integration.Approval.Types.{ApprovedOperation, ApprovalLookup}
use bankr_integration.Mcp.Session.{BaseMcpSession}
use bankr_integration.Mcp.Args.{
  Checked, accepted, rejected, ◌>>=◌, ◌>>◌, reject_if, has_any, raw_transaction_keys,
  raw_value_movement_keys, raw_asset_exchange_keys,
}
use bankr_integration.Mcp.Approved.{
  validate_approved_contract_operation, validate_approved_value_movement,
  validate_approved_asset_exchange,
}
use bankr_integration.Mcp.Store.{ApprovalStore}
use bankr_integration.Mcp.Tools.{
  BaseMcpTool, execute_approved_value_movement, execute_approved_asset_exchange,
  execute_approved_contract_operation,
}

-- The approval and the arguments that the rest of the call uses.
pub record Resolved : Type 0 where
  pub approval : ApprovedOperation
  pub effective_args : Fields

-- `if (!x) return { ok: false, reason };`
abbrev pub need {ℓ} : {A : Type ℓ} → Option A → Text → Checked A
need none reason = rejected reason
need (some a) reason = accepted a

abbrev pub resolved : ApprovedOperation → Checked Fields → Checked Resolved
resolved a checked = checked >>= λ args. accepted (record { approval = a; effective_args = args })

module _ (S : Type 0) (host : Host) (now : Number) (store : Option (ApprovalStore S)) (s : S) where
  -- What the three functions check first; the ids under which the approval is looked up.
  unfoldable pub lookup_of : Fields → BaseMcpSession → Text → Checked ApprovalLookup
  lookup_of args session kind =
      let approval_id = clean host (get (txt "approval_id") args) in
      let chain_id = to_number host (get (txt "chain_id") args) in
      do
        reject_if (is_empty approval_id) (txt "approval_id required for governed " ++ kind)
        reject_if (not (is_finite chain_id)) (txt "chain_id required for governed " ++ kind)
        accepted (record {
          approval_id = approval_id;
          passport_id = session.passport.passport_id;
          chain_id = chain_id;
        })

  unfoldable pub resolve_approved_value_movement : Fields → BaseMcpSession → Checked Resolved
  resolve_approved_value_movement args session = do
    reject_if (has_any raw_value_movement_keys args) (
        txt "raw value movement fields are not accepted from model arguments; use approval_id only")
    input ← lookup_of args session (txt "value movement")
    get_movement ←
        need (elim store [ none ↦ none | some st ↦ st.get_movement ])
          (txt "approval store unavailable for governed value movement")
    found ← need (get_movement input s) (txt "approved value movement not found")
    resolved found.approval
        (validate_approved_value_movement host now found.approval found.body args session)

  unfoldable pub resolve_approved_asset_exchange : Fields → BaseMcpSession → Checked Resolved
  resolve_approved_asset_exchange args session = do
    reject_if (has_any raw_asset_exchange_keys args) (
        txt "raw asset exchange fields are not accepted from model arguments; use approval_id only")
    input ← lookup_of args session (txt "asset exchange")
    get_exchange ←
        need (elim store [ none ↦ none | some st ↦ st.get_exchange ])
          (txt "approval store unavailable for governed asset exchange")
    found ← need (get_exchange input s) (txt "approved asset exchange not found")
    resolved found.approval
        (validate_approved_asset_exchange host now found.approval found.body args session)

  unfoldable pub resolve_approved_contract_operation : Fields → BaseMcpSession → Checked Resolved
  resolve_approved_contract_operation args session = do
    reject_if (has_any raw_transaction_keys args)
        (txt "raw transaction fields are not accepted from model arguments; use approval_id only")
    input ← lookup_of args session (txt "contract operation")
    st ← need store (txt "approval store unavailable for governed contract operation")
    found ← need (st.get_contract input s) (txt "approved contract operation not found")
    resolved found.approval
        (validate_approved_contract_operation host now found.approval found.body args session)

  -- The three `if (manifest.name === "execute_approved_…")` of a call; `none` for the other tools.
  unfoldable pub resolve_approved :
      BaseMcpTool → Fields → BaseMcpSession → Option (Checked Resolved)
  resolve_approved execute_approved_value_movement args session =
      some (resolve_approved_value_movement args session)
  resolve_approved execute_approved_asset_exchange args session =
      some (resolve_approved_asset_exchange args session)
  resolve_approved execute_approved_contract_operation args session =
      some (resolve_approved_contract_operation args session)
  resolve_approved t args session = none
