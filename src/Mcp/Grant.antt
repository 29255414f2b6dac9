-- ===== src/Mcp/Grant.antt =====
-- Checking a call against the passport's capability grants (`findGrant`).
use bankr_integration.Prelude.{
  Bool, true, false, not, ◌&&◌, ◌||◌, Option, none, some, List, [], ◌++◌, find?, map, length, ltb,
}
use bankr_integration.Js.Text.{Text, txt, ◌===◌, includes, lower, trim, is_empty}
use bankr_integration.Js.Number.{Number, num_eq, num_lt}
use bankr_integration.Js.Json.{Json, bool, str, Fields, get, has, clean, or_else, to_number}
use bankr_integration.Js.Host.{Host}
use bankr_integration.Mcp.Tools.{
  BaseMcpTool, capability, read_wallet_state, pay_x402_invoice, publish_receipt_hash,
  request_human_approved_contract_call, execute_approved_value_movement,
  execute_approved_asset_exchange, execute_approved_contract_operation,
}
use bankr_integration.Mcp.Session.{CapabilityGrant}
use bankr_integration.Mcp.Args.{Checked, accepted, rejected, ◌>>◌, reject_if, lower_value, amount}
use bankr_integration.Mcp.Approved.{zero_number, not_positive, is_past}

unfoldable pub bankr_read_only_grant_policy_sha256 : Text
bankr_read_only_grant_policy_sha256 =
    txt "c565cfdc9b659990d73cce9e50cb23c6d6c1ca6aee207c74f95b76ab26fe3473"

-- `list.length > 0 && !list.includes(x)`; a list that is not given is empty.
unfoldable pub is_outside : (Text → Text) → Option (List Text) → Text → Bool
is_outside f none x = false
is_outside f (some xs) x = ltb 0 (length xs) && not (includes (map f xs) x)

unfoldable pub is_bool : Json → Bool
is_bool (bool b) = true
is_bool v = false

-- The `lower` of the source on a text.
unfoldable pub lower_trimmed : Text → Text
lower_trimmed s = lower (trim s)

-- `n === null || n < 0`
unfoldable pub is_negative : Option Number → Bool
is_negative none = true
is_negative (some n) = num_lt n zero_number

-- `max !== null && n > max`
unfoldable pub is_above : Option Number → Option Number → Bool
is_above (some max) (some n) = num_lt max n
is_above max n = false

-- `grant.chain_id !== undefined && grant.chain_id !== chainId`
unfoldable pub is_other_chain : Option Number → Number → Bool
is_other_chain none n = false
is_other_chain (some c) n = not (num_eq c n)

unfoldable pub granted_for : BaseMcpTool → List CapabilityGrant → Option CapabilityGrant
granted_for t grants = find? (λ (g : CapabilityGrant). g.capability === capability t) grants

module _ (host : Host) where
  -- `null` for no limit, and for a limit that is no number.
  unfoldable pub max_of : CapabilityGrant → Option Number
  max_of g = elim g.max_per_call [ none ↦ none | some m ↦ amount host m ]

  abbrev arg_lower : Text → Fields → Text
  arg_lower key args = lower_value host (get key args)

  abbrev arg_clean : Text → Fields → Text
  arg_clean key args = clean host (get key args)

  abbrev arg_amount : Text → Fields → Option Number
  arg_amount key args = amount host (get key args)

module _ (host : Host) (now : Number) where
  -- The checks that depend on the tool.
  unfoldable pub tool_policy : BaseMcpTool → Fields → CapabilityGrant → Checked (Unit {0})
  tool_policy read_wallet_state args g =
      let policy_hash = trim (elim g.policy_hash [ none ↦ [] | some h ↦ h ]) in
      do
        reject_if (is_empty policy_hash)
            (txt "base.wallet.read requires policy_hash runtime witness")
        reject_if (not (policy_hash === bankr_read_only_grant_policy_sha256))
            (txt "base.wallet.read policy_hash mismatch")
  tool_policy pay_x402_invoice args g =
      let requested = arg_amount host (txt "amount") args in
      do
        reject_if
            (is_outside lower_trimmed g.allowed_recipients (arg_lower host (txt "recipient") args))
            (txt "recipient outside capability grant")
        reject_if (not_positive requested) (txt "amount must be positive")
        reject_if (is_above (max_of host g) requested)
            (txt "amount exceeds max_per_call capability grant")
  tool_policy execute_approved_value_movement args g =
      let requested = arg_amount host (txt "amount") args in
      do
        reject_if (is_empty (arg_clean host (txt "human_approval_receipt") args))
            (txt "human approval receipt required for governed value movement")
        reject_if
            (is_outside lower_trimmed g.allowed_recipients (arg_lower host (txt "recipient") args))
            (txt "recipient outside capability grant")
        reject_if
            (is_outside lower_trimmed g.allowed_assets (arg_lower host (txt "token_address") args))
            (txt "asset outside capability grant")
        reject_if (not_positive requested) (txt "amount must be positive")
        reject_if (is_above (max_of host g) requested)
            (txt "amount exceeds max_per_call capability grant")
        reject_if (not (is_bool (get (txt "is_native_token") args)))
            (txt "is_native_token must be boolean")
  tool_policy execute_approved_asset_exchange args g =
      let requested = arg_amount host (txt "amount") args in
      do
        reject_if (is_empty (arg_clean host (txt "human_approval_receipt") args))
            (txt "human approval receipt required for governed asset exchange")
        reject_if
            (is_outside lower_trimmed g.allowed_assets (arg_lower host (txt "from_token") args)
              || is_outside lower_trimmed g.allowed_assets (arg_lower host (txt "to_token") args))
            (txt "asset outside capability grant")
        reject_if (not_positive requested) (txt "amount must be positive")
        reject_if (is_above (max_of host g) requested)
            (txt "amount exceeds max_per_call capability grant")
        reject_if (not_positive (arg_amount host (txt "min_buy_amount") args))
            (txt "min_buy_amount must be positive")
  tool_policy execute_approved_contract_operation args g =
      let value = amount host (or_else (get (txt "value") args) (str (txt "0"))) in
      do
        reject_if (is_empty (arg_clean host (txt "human_approval_receipt") args))
            (txt "human approval receipt required for governed contract operation")
        reject_if
            (is_outside lower_trimmed g.allowed_contracts (arg_lower host (txt "contract") args))
            (txt "contract outside capability grant")
        reject_if (is_outside lower g.allowed_methods (arg_lower host (txt "method") args))
            (txt "method outside capability grant")
        reject_if (is_negative value) (txt "value must be non-negative")
        reject_if (is_above (max_of host g) value)
            (txt "value exceeds max_per_call capability grant")
  tool_policy request_human_approved_contract_call args g = do
    reject_if (is_outside lower_trimmed g.allowed_contracts (arg_lower host (txt "contract") args))
        (txt "contract outside capability grant")
    reject_if (is_outside lower g.allowed_methods (arg_lower host (txt "method") args))
        (txt "method outside capability grant")
  tool_policy publish_receipt_hash args g = accepted tt

  -- The checks on a grant that was found.
  unfoldable pub check_grant :
      BaseMcpTool → Fields → Option CapabilityGrant → Checked CapabilityGrant
  check_grant t args none = rejected (capability t ++ txt " requires a passport capability grant")
  check_grant t args (some g) = do
    reject_if (is_past host now g.expires_at) (capability t ++ txt " capability grant expired")
    reject_if (is_other_chain g.chain_id (to_number host (get (txt "chain_id") args)))
        (capability t ++ txt " chain_id outside capability grant")
    tool_policy t args g
    accepted g

  unfoldable pub find_grant : BaseMcpTool → Fields → List CapabilityGrant → Checked CapabilityGrant
  find_grant t args grants = do
    reject_if (has (txt "capability_grant") args || has (txt "capability_grants") args)
        (txt "tool arguments cannot self-declare capability grants")
    check_grant t args (granted_for t grants)
