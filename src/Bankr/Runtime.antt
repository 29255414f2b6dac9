-- ===== src/Bankr/Runtime.antt =====
-- The runtime: which method serves which tool.
use bankr_integration.Prelude.{Option, none, some, List, []}
use bankr_integration.Js.Json.{Json}
use bankr_integration.Js.Host.{Host}
use bankr_integration.Mcp.Tools.{
  BaseMcpTool, read_wallet_state, pay_x402_invoice, publish_receipt_hash,
  request_human_approved_contract_call, execute_approved_value_movement,
  execute_approved_asset_exchange, execute_approved_contract_operation,
}
use bankr_integration.Mcp.Execution.{ExecutionInput, Runtime}
use bankr_integration.Bankr.Http.{Web, Request, Server, Sent}
use bankr_integration.Bankr.Adapter.{Adapter, read_wallet}
use bankr_integration.Bankr.Writes.{move_value, exchange_assets, operate_contract}
use bankr_integration.Bankr.Payments.{pay_invoice, publish_receipt}

module _ (host : Host) (web : Web) (server : Server) (a : Adapter) where
  -- The methods of the runtime; there is none for a contract call that only asks for a human.
  unfoldable pub bankr_method : BaseMcpTool → Option (ExecutionInput → List Request → Sent Json)
  bankr_method read_wallet_state = some (read_wallet host web server a)
  bankr_method pay_x402_invoice = some (pay_invoice host web server a)
  bankr_method publish_receipt_hash = some (publish_receipt host web server a)
  bankr_method request_human_approved_contract_call = none
  bankr_method execute_approved_value_movement = some (move_value host web server a)
  bankr_method execute_approved_asset_exchange = some (exchange_assets host web server a)
  bankr_method execute_approved_contract_operation = some (operate_contract host web server a)

  -- The runtime of the gateway; each call of a method starts with no requests.
  abbrev pub bankr_runtime : Runtime
  bankr_runtime t = elim (bankr_method t) [
    | none ↦ none
    | some method ↦ some (λ input. (method input []).0)
  ]

  -- The requests of one call, the last first.
  abbrev pub sent_by : ExecutionInput → List Request
  sent_by input = elim (bankr_method input.tool) [ none ↦ [] | some method ↦ (method input []).1 ]
