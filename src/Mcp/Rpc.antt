-- ===== src/Mcp/Rpc.antt =====
-- The JSON-RPC requests of the gateway (`handleBaseMcpRequest`, `baseMcpToolName`, `callArgs`,
-- `cleanToolName`). A reply keeps the id of its request and what the code chose to answer; the fixed
-- texts of `initialize` and the schemas of `tools/list` are left out.
use bankr_integration.Prelude.{false, Option, none, some, List, [], if◌then◌else◌, take}
use bankr_integration.Js.Text.{Text, txt, ◌===◌, trim, is_empty}
use bankr_integration.Js.Number.{Number}
use bankr_integration.Js.Json.{Json, null, str, arr, obj, Fields, end, get, or_else}
use bankr_integration.Js.Host.{Host}
use bankr_integration.Approval.Usage.{Outcome, returned, threw}
use bankr_integration.Mcp.Session.{BaseMcpSession}
use bankr_integration.Mcp.Store.{ApprovalStore}
use bankr_integration.Mcp.Verdict.{text_result}
use bankr_integration.Mcp.Execution.{ExecutionInput, Runtime, CallEnd}
use bankr_integration.Mcp.Call.{call_base_mcp_tool}

pub data RpcReply : Type 0 where
  -- -32600, -32601 and -32602.
  invalid_request method_not_found invalid_tool_name : (id : Json) → RpcReply
  -- A notification has no reply.
  no_reply : RpcReply
  initialized listed : (id : Json) → RpcReply
  called : (id result : Json) → RpcReply

pub record RpcEnd (S : Type 0) : Type 0 where
  pub reply : Outcome RpcReply
  pub store : S
  pub executed : List ExecutionInput

-- The properties of a value, `none` for what is no object; an array has none that the code reads.
unfoldable pub properties : Json → Option Fields
properties (obj fs) = some fs
properties (arr xs) = some end
properties v = none

abbrev pub or_end : Option Fields → Fields
or_end none = end
or_end (some fs) = fs

-- `callArgs`
unfoldable pub call_args : Json → Fields
unfolding properties
call_args params = elim (properties params) [
  | none ↦ end
  | some fs ↦ or_end (properties (get (txt "arguments") fs))
]

-- `cleanToolName`
unfoldable pub clean_tool_name : Json → Text
clean_tool_name (str s) = take 80 (trim s)
clean_tool_name v = []

-- `req.jsonrpc !== "2.0" || typeof req.method !== "string"`, and the method.
unfoldable pub method_of : Fields → Option Text
method_of req = elim (get (txt "jsonrpc") req) [
  | str v ↦
      if v === txt "2.0" then elim (get (txt "method") req) [ str m ↦ some m | _ ↦ none ] else none
  | _ ↦ none
]

-- `baseMcpToolName`: the name under which a request is counted.
unfoldable pub base_mcp_tool_name : Json → Json
unfolding properties
base_mcp_tool_name body = elim (properties body) [
  | none ↦ Json.undefined
  | some req ↦
      if elim (get (txt "method") req) [ str m ↦ m === txt "tools/call" | _ ↦ false ]
      then elim (properties (get (txt "params") req)) [
        | none ↦ str (txt "__invalid_tool_name__")
        | some p ↦ elim (get (txt "name") p) [
          | str n ↦ if is_empty (trim n) then str (txt "__invalid_tool_name__") else str (take 80 n)
          | _ ↦ str (txt "__invalid_tool_name__")
        ]
      ]
      else get (txt "method") req
]

module _ (S : Type 0) (host : Host) (now : Number) (runtime : Runtime)
    (store : Option (ApprovalStore S)) (session : Option BaseMcpSession) where
  abbrev pub reply_only : RpcReply → S → RpcEnd S
  reply_only r s = record { reply = returned r; store = s; executed = [] }

  unfoldable pub called_with : Json → CallEnd S → RpcEnd S
  called_with id e = record {
    reply = elim e.reply [
      | returned r ↦ returned (called id (text_result host r))
      | threw m ↦ threw m
    ];
    store = e.store;
    executed = e.executed;
  }

  unfoldable pub call_method : Json → Fields → S → RpcEnd S
  call_method id req s =
      let name =
        clean_tool_name (get (txt "name") (or_end (properties (get (txt "params") req)))) in
      if is_empty name
      then reply_only (invalid_tool_name id) s
      else called_with id (
          call_base_mcp_tool S host now runtime store name (call_args (get (txt "params") req))
            session s)

  unfoldable pub dispatch : Json → Text → Fields → S → RpcEnd S
  dispatch id method req s =
      if method === txt "notifications/initialized"
      then reply_only no_reply s
      else if method === txt "initialize"
      then reply_only (initialized id) s
      else if method === txt "tools/list"
      then reply_only (listed id) s
      else if method === txt "tools/call"
      then call_method id req s
      else reply_only (method_not_found id) s

  unfoldable pub handle_base_mcp_request : Json → S → RpcEnd S
  handle_base_mcp_request body s = elim (properties body) [
    | none ↦ reply_only (invalid_request null) s
    | some req ↦
        let id = or_else (get (txt "id") req) null in
        elim (method_of req) [
          | none ↦ reply_only (invalid_request id) s
          | some method ↦ dispatch id method req s
        ]
  ]
