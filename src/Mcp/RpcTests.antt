-- ===== src/Mcp/RpcTests.antt =====
-- Requests of the gateway at fixed inputs, and the theorems on them.
use bankr_integration.Prelude.{◌≡◌, refl, false, none, some, [], All}
use bankr_integration.Js.Text.{Text, txt, ◌===◌}
use bankr_integration.Js.Number.{finite, pos}
use bankr_integration.Js.Json.{Json, num, str, obj, Fields, end, field, get}
use bankr_integration.Fixtures.{toy_host}
use bankr_integration.Approval.Usage.{returned}
use bankr_integration.Mcp.Session.{BaseMcpSession}
use bankr_integration.Mcp.Execution.{Runtime}
use bankr_integration.Mcp.Tests.{five_host, visitor, invoice, pay}
use bankr_integration.Mcp.Rpc.{properties, method_of, RpcEnd, handle_base_mcp_request}
use bankr_integration.Mcp.Requests.{IsCalled, handle-IsCalled, handle_effect_free}

abbrev guest : BaseMcpSession
guest = record {
  wallet = txt "0xab";
  passport = record {
    agent_id = txt "leonardo";
    passport_id = txt "7";
    agent_wallet = none;
    active_system_prompt_hash = txt "h";
    authority_scope = [];
    risk_context = none;
    capability_grants = none;
  };
}

abbrev echo : Runtime
echo t = some (λ input. returned (obj end))

abbrev request : Text → Fields
request method = field (txt "jsonrpc") (str (txt "2.0")) (
    field (txt "id") (num (finite (pos 1))) (
      field (txt "method") (str method)
        (field (txt "params") (obj (field (txt "name") (str (txt "read_wallet_state")) end)) end)))

-- A call that is let through: the runtime is handed one input.
abbrev paying_request : Json
paying_request = obj (
    field (txt "jsonrpc") (str (txt "2.0")) (
      field (txt "method") (str (txt "tools/call")) (
        field (txt "params")
          (obj (
            field (txt "name") (str (txt " pay_x402_invoice "))
              (field (txt "arguments") (obj invoice) end)))
          end)))

abbrev paid : RpcEnd (Unit {0})
paid =
    handle_base_mcp_request (Unit {0}) five_host (finite (pos 0)) pay none (some visitor)
      paying_request tt

handle-IsCalled_example :
    All
      (IsCalled (Unit {0}) five_host (finite (pos 0)) pay none (some visitor) paying_request)
      paid.executed
handle-IsCalled_example =
    handle-IsCalled (Unit {0}) five_host (finite (pos 0)) pay none (some visitor) paying_request tt

request_runs : Unit {0}
unfolding txt ◌===◌ get properties method_of
request_runs = tt

listing : method_of (request (txt "tools/list")) ≡ some (txt "tools/list")
unfolding request_runs
listing = refl

no_call : (txt "tools/list" === txt "tools/call") ≡ false
unfolding request_runs
no_call = refl

is_object : properties (obj (request (txt "tools/list"))) ≡ some (request (txt "tools/list"))
unfolding request_runs
is_object = refl

handle_effect_free_example :
    let end =
      handle_base_mcp_request
        (Unit {0})
        toy_host
        (finite (pos 0))
        echo
        none
        (some guest)
        (obj (request (txt "tools/list")))
        tt in
    (end.executed ≡ []) × (end.store ≡ tt)
handle_effect_free_example =
    handle_effect_free (Unit {0}) toy_host (finite (pos 0)) echo none (some guest)
      (obj (request (txt "tools/list"))) (request (txt "tools/list")) (txt "tools/list") tt
      is_object listing no_call
