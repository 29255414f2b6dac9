-- ===== src/Mcp/Call.antt =====
-- One tool call (`executeAllowedTool`, `callBaseMcpTool`). The runtime's methods are arguments; what
-- the call hands to them is recorded.
use bankr_integration.Prelude.{
  Bool, true, false, not, ◌||◌, Option, none, some, List, [], ◌∷◌, ◌++◌, if◌then◌else◌,
}
use bankr_integration.Js.Text.{Text, txt, ◌===◌, trim, is_empty}
use bankr_integration.Js.Number.{Number}
use bankr_integration.Js.Json.{
  Json, undefined, num, str, obj, Fields, end, field, get, or_else, text_of, to_number,
}
use bankr_integration.Js.Host.{Host}
use bankr_integration.Kernel.Types.{IdentityEnvelope, allow, refuse, is_blocking, kind_text}
use bankr_integration.Kernel.Evaluate.{evaluate_tool_call}
use bankr_integration.Approval.Types.{ApprovedOperation, ApprovalReservation}
use bankr_integration.Approval.Usage.{Outcome, returned, threw, ReserveReply, granted, denied}
use bankr_integration.Mcp.Tools.{
  BaseMcpTool, tool_name, capability, tool_named, read_wallet_state,
  request_human_approved_contract_call,
}
use bankr_integration.Mcp.Session.{BaseMcpSession, grants_of, envelope_for}
use bankr_integration.Mcp.Args.{
  Checked, accepted, rejected, lower_value, normalize_agent_wallet_args,
}
use bankr_integration.Mcp.Store.{ApprovalStore}
use bankr_integration.Mcp.Resolve.{resolve_approved}
use bankr_integration.Mcp.Grant.{find_grant}
use bankr_integration.Mcp.Verdict.{
  custom_verdict, receipt, Reply, no_session, refusal, human_required, done,
}
use bankr_integration.Mcp.Execution.{
  ExecutionInput, Runtime, default_runtime_result, runtime_accepted, CallEnd, Lifecycle,
  lifecycle_of,
}

module _ (S : Type 0) (host : Host) where
  -- The replies that refuse, with the manifest's part where the code gives it.
  unfoldable pub refuse_with :
      IdentityEnvelope → BaseMcpTool → Text → Option BaseMcpTool → Json → Reply
  refuse_with e t reason manifest result =
      let v = custom_verdict host e refuse reason (capability t) in
      refusal (txt "refuse") (tool_name t) v.reason (receipt e v) manifest result

  abbrev pub answer : Reply → S → List ExecutionInput → CallEnd S
  answer r s handed = record { reply = returned r; store = s; executed = handed }

  unfoldable pub failed_reason : BaseMcpTool → Text → Text
  failed_reason t message = txt "approved " ++ capability t ++ txt " runtime failed: " ++ message

  module _ (runtime : Runtime) (e : IdentityEnvelope) where
    -- `executeAllowedTool`; a tool with no method gets the default result.
    unfoldable pub execute_allowed_tool : ExecutionInput → Outcome Json
    execute_allowed_tool input = elim (runtime input.tool) [
      | none ↦ returned (default_runtime_result host input.tool input.args input.session)
      | some method ↦ method input
    ]

    -- What a method of the runtime is given.
    unfoldable pub handed : ExecutionInput → List ExecutionInput
    handed input = elim (runtime input.tool) [ none ↦ [] | some method ↦ input ∷ [] ]

    -- The answer after a release: an exception of the release ends the call.
    unfoldable pub after_release : ExecutionInput → Text → Json → Outcome (Unit {0}) × S → CallEnd S
    after_release input reason result (returned u, s) =
        answer (refuse_with e input.tool reason (some input.tool) result) s (handed input)
    after_release input reason result (threw message, s) = record {
      reply = threw message;
      store = s;
      executed = handed input;
    }

    -- `catch`: release with the message, then refuse.
    unfoldable pub caught :
        Lifecycle S → ApprovalReservation → ExecutionInput → Text → S → CallEnd S
    caught life r input message s =
        after_release input (failed_reason input.tool message) undefined
          (life.release r message undefined s)

    abbrev pub not_accepted : BaseMcpTool → Text
    not_accepted t =
        txt "approved " ++ capability t ++ txt " runtime did not report accepted execution"

    -- The release inside `try`: its exception goes to `catch`.
    unfoldable pub after_rejection :
        Lifecycle S
        → ApprovalReservation
        → ExecutionInput
        → Json
        → Outcome (Unit {0}) × S
        → CallEnd S
    after_rejection life r input result (returned u, s) =
        answer (refuse_with e input.tool (not_accepted input.tool) (some input.tool) result) s
          (handed input)
    after_rejection life r input result (threw message, s) = caught life r input message s

    unfoldable pub after_consumption :
        Lifecycle S
        → ApprovalReservation
        → ExecutionInput
        → Json
        → Outcome (Unit {0}) × S
        → CallEnd S
    after_consumption life r input result (returned u, s) =
        answer (done input.tool (tool_name input.tool) result input.of_policy) s (handed input)
    after_consumption life r input result (threw message, s) = caught life r input message s

    -- A result of the runtime, and whether it reports an accepted execution.
    unfoldable pub after_result :
        Lifecycle S → ApprovalReservation → ExecutionInput → Json → Bool → S → CallEnd S
    after_result life r input result true s =
        after_consumption life r input result (life.consume r result s)
    after_result life r input result false s =
        after_rejection life r input result (life.release r (not_accepted input.tool) result s)

    -- The `try` block of a governed call, from the outcome of the runtime.
    unfoldable pub settle :
        Lifecycle S → ApprovalReservation → ExecutionInput → Outcome Json → S → CallEnd S
    settle life r input (threw message) s = caught life r input message s
    settle life r input (returned result) s =
        after_result life r input result (runtime_accepted result) s

    -- A governed call from its reservation on.
    unfoldable pub after_reserve :
        Lifecycle S → ExecutionInput → Outcome ReserveReply × S → CallEnd S
    after_reserve life input (threw message, s) = record {
      reply = threw message;
      store = s;
      executed = [];
    }
    after_reserve life input (returned (denied reason), s) =
        answer (refuse_with e input.tool reason (some input.tool) undefined) s []
    after_reserve life input (returned (granted r), s) =
        settle life r input (execute_allowed_tool input) s

    unfoldable pub run_governed :
        Option (Lifecycle S) → ApprovedOperation → ExecutionInput → S → CallEnd S
    run_governed none a input s =
        answer
          (refuse_with e input.tool
            (txt "approval usage store unavailable for governed " ++ capability input.tool)
            (some input.tool) undefined)
          s []
    run_governed (some life) a input s =
        after_reserve life input (life.reserve a input.of_policy.hash s)

    -- A call that needs no approval.
    unfoldable pub run_direct : ExecutionInput → Outcome Json → S → CallEnd S
    run_direct input (returned result) s =
        answer (done input.tool (tool_name input.tool) result input.of_policy) s (handed input)
    run_direct input (threw message) s =
        answer
          (refuse_with e input.tool (failed_reason input.tool message) (some input.tool) undefined)
          s (handed input)

    -- The envelope for a human that `request_human_approved_contract_call` answers with.
    human_approval : ExecutionInput → Json
    human_approval input =
        let text = λ (key : Text). str (text_of host (or_else (get key input.args) (str []))) in
        obj (
          field (txt "status") (str (txt "pending_human_approval")) (
            field (txt "passport_id") (str input.session.passport.passport_id) (
              field (txt "agent_id") (str input.session.passport.agent_id) (
                field (txt "chain_id") (num (to_number host (get (txt "chain_id") input.args))) (
                  field (txt "contract") (str (lower_value host (get (txt "contract") input.args)))
                    (field (txt "method") (text (txt "method")) (
                      field (txt "calldata_hash") (text (txt "calldata_hash"))
                        (field (txt "purpose") (text (txt "purpose")) end))))))))

    -- The call once the grant is found.
    unfoldable pub run_tool :
        Option (Lifecycle S)
        → BaseMcpTool
        → ExecutionInput
        → Option ApprovedOperation
        → S
        → CallEnd S
    unfolding human_approval
    run_tool life request_human_approved_contract_call input a s =
        answer (human_required input.tool (human_approval input) input.of_policy) s []
    run_tool life t input (some a) s = run_governed life a input s
    run_tool life t input none s = run_direct input (execute_allowed_tool input) s

-- `typeof args.passport_id === "string" ? args.passport_id.trim() : ""`
unfoldable pub passport_arg : Fields → Text
passport_arg args = elim (get (txt "passport_id") args) [ str p ↦ trim p | _ ↦ [] ]

module _ (S : Type 0) (host : Host) (now : Number) (runtime : Runtime)
    (store : Option (ApprovalStore S)) where
  -- The call from its effective arguments on: the kernel, the grant, the execution.
  unfoldable pub authorise :
      IdentityEnvelope
      → BaseMcpSession
      → BaseMcpTool
      → Fields
      → Option ApprovedOperation
      → S
      → CallEnd S
  authorise e session t args a s =
      let kernel = evaluate_tool_call host e (record { name = capability t; args = obj args }) in
      if is_blocking kernel
      then answer S host
          (refusal (kind_text kernel.verdict) (tool_name t) kernel.reason (receipt e kernel) none
            undefined)
          s []
      else elim (find_grant host now t args (grants_of session)) [
        | rejected reason ↦ answer S host (refuse_with S host e t reason (some t) undefined) s []
        | accepted grant ↦
            let v =
              custom_verdict host e allow
                (capability t ++ txt " is allowed by passport capability grant") (capability t) in
            run_tool S host runtime e (lifecycle_of store) t
              (record {
                tool = t;
                args = args;
                session = session;
                grant = grant;
                of_policy = receipt e v;
                approved_operation = a;
              })
              a s
      ]

  -- The effective arguments: the agent wallet, or the approval's own values.
  unfoldable pub effective :
      BaseMcpTool → Fields → BaseMcpSession → S → Checked (Fields × Option ApprovedOperation)
  effective read_wallet_state args session s =
      elim (normalize_agent_wallet_args host args session) [
        | rejected reason ↦ rejected reason
        | accepted args' ↦ accepted (args', none)
      ]
  effective t args session s = elim (resolve_approved S host now store s t args session) [
    | none ↦ accepted (args, none)
    | some (rejected reason) ↦ rejected reason
    | some (accepted r) ↦ accepted (r.effective_args, some r.approval)
  ]

  unfoldable pub call_tool :
      IdentityEnvelope → BaseMcpSession → BaseMcpTool → Fields → S → CallEnd S
  call_tool e session t args s =
      if is_empty (passport_arg args) || not (passport_arg args === session.passport.passport_id)
      then answer S host
          (refuse_with S host e t
            (txt "passport_id missing or does not match the resolved wallet/passport session") none
            undefined)
          s []
      else elim (effective t args session s) [
        | rejected reason ↦ answer S host (refuse_with S host e t reason (some t) undefined) s []
        | accepted (args', a) ↦ authorise e session t args' a s
      ]

  unfoldable pub call_base_mcp_tool : Text → Fields → Option BaseMcpSession → S → CallEnd S
  unfolding call_tool
  call_base_mcp_tool name args none s = answer S host no_session s []
  call_base_mcp_tool name args (some session) s =
      let e = envelope_for session (txt "Base MCP tool request: " ++ name) in
      elim (tool_named name) [
        | none ↦
            let v =
              custom_verdict host e refuse
                (txt "unknown or raw Base MCP tool is not exposed: " ++ name)
                (if is_empty name then txt "unknown_tool" else name) in
            answer S host (refusal (txt "refuse") name v.reason (receipt e v) none undefined) s []
        | some t ↦ call_tool e session t args s
      ]
