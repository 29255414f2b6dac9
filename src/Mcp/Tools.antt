-- ===== src/Mcp/Tools.antt =====
-- The tools of services/gateway/src/mcp-base.ts: names, capabilities and risks.
use bankr_integration.Prelude.{Bool, true, false, Option, List, [], ◌∷◌, find?}
use bankr_integration.Js.Text.{Text, txt, ◌===◌}

pub data BaseMcpTool : Type 0 where
  read_wallet_state pay_x402_invoice publish_receipt_hash : BaseMcpTool
  request_human_approved_contract_call execute_approved_value_movement : BaseMcpTool
  execute_approved_asset_exchange execute_approved_contract_operation : BaseMcpTool

unfoldable pub tool_name : BaseMcpTool → Text
tool_name read_wallet_state = txt "read_wallet_state"
tool_name pay_x402_invoice = txt "pay_x402_invoice"
tool_name publish_receipt_hash = txt "publish_receipt_hash"
tool_name request_human_approved_contract_call = txt "request_human_approved_contract_call"
tool_name execute_approved_value_movement = txt "execute_approved_value_movement"
tool_name execute_approved_asset_exchange = txt "execute_approved_asset_exchange"
tool_name execute_approved_contract_operation = txt "execute_approved_contract_operation"

unfoldable pub capability : BaseMcpTool → Text
capability read_wallet_state = txt "base.wallet.read"
capability pay_x402_invoice = txt "base.x402.pay"
capability publish_receipt_hash = txt "base.receipt.publish"
capability request_human_approved_contract_call = txt "base.contract.request_human"
capability execute_approved_value_movement = txt "base.value.move"
capability execute_approved_asset_exchange = txt "base.asset.exchange"
capability execute_approved_contract_operation = txt "base.contract.execute"

unfoldable pub risk : BaseMcpTool → Text
risk read_wallet_state = txt "read_only"
risk pay_x402_invoice = txt "spending"
risk publish_receipt_hash = txt "low_risk_write"
risk request_human_approved_contract_call = txt "human_gated_contract"
risk execute_approved_value_movement = txt "human_approved_spend"
risk execute_approved_asset_exchange = txt "human_approved_spend"
risk execute_approved_contract_operation = txt "human_approved_spend"

unfoldable pub base_mcp_tools : List BaseMcpTool
base_mcp_tools =
    read_wallet_state ∷ pay_x402_invoice ∷ publish_receipt_hash
    ∷ request_human_approved_contract_call ∷ execute_approved_value_movement
    ∷ execute_approved_asset_exchange ∷ execute_approved_contract_operation ∷ []

-- `MANIFESTS.get(name)`
unfoldable pub tool_named : Text → Option BaseMcpTool
unfolding base_mcp_tools
tool_named name = find? (λ t. tool_name t === name) base_mcp_tools

-- The tools that run only from an approval of the store.
abbrev pub is_governed : BaseMcpTool → Bool
is_governed execute_approved_value_movement = true
is_governed execute_approved_asset_exchange = true
is_governed execute_approved_contract_operation = true
is_governed t = false
