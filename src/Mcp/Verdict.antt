-- ===== src/Mcp/Verdict.antt =====
-- The verdicts, receipts and replies of the gateway (`customVerdict`, `receipt`, `textResult`).
use bankr_integration.Prelude.{Bool, true, false, not, Option, none, some, [], ◌∷◌, ◌++◌}
use bankr_integration.Js.Text.{Text, txt}
use bankr_integration.Js.Json.{
  Json, undefined, bool, str, arr, obj, nil, cons, end, field, strings, sha256, stringify,
}
use bankr_integration.Js.Host.{Host}
use bankr_integration.Kernel.Types.{
  IdentityEnvelope, IdentityVerdict, IdentityVerdictKind, VerdictBody, Receipt, kind_text,
}
use bankr_integration.Kernel.Authority.{active_constraints, verdict_json, or_none}
use bankr_integration.Mcp.Tools.{BaseMcpTool, tool_name, capability, risk}

-- `envelopeFor` gives no `memory_refs`.
envelope_json : IdentityEnvelope → Json
envelope_json e = obj (
    field (txt "agent_id") (str e.agent_id) (
      field (txt "passport_id") (str e.passport_id) (
        field (txt "user_request") (str e.user_request) (
          field (txt "active_system_prompt_hash") (str e.active_system_prompt_hash) (
            field (txt "authority_scope") (arr (strings e.authority_scope)) (
              field (txt "requested_tools") (arr (strings (or_none e.requested_tools)))
                (field (txt "risk_context") (str e.risk_context) end)))))))

unfoldable pub refusal_body : IdentityEnvelope → IdentityVerdictKind → Text → Text → VerdictBody
refusal_body e verdict reason tool = record {
  verdict = verdict;
  reason = reason;
  safe_instruction = txt "Do not execute " ++ tool ++ txt "; passport policy does not grant it.";
  tool_grants = [];
  tool_denials = tool ∷ [];
  active_constraints = active_constraints e;
}

unfoldable pub allowance_body : IdentityEnvelope → Text → Text → VerdictBody
allowance_body e reason tool = record {
  verdict = IdentityVerdictKind.allow;
  reason = reason;
  safe_instruction = txt "Execute " ++ tool ++ txt " only within passport policy.";
  tool_grants = tool ∷ [];
  tool_denials = [];
  active_constraints = active_constraints e;
}

module _ (host : Host) where
  unfoldable pub with_hash : IdentityEnvelope → VerdictBody → IdentityVerdict
  unfolding envelope_json
  with_hash e v = record {
    body = v;
    receipt_hash = sha256 host (
        obj (
          field (txt "stage") (str (txt "tool")) (
            field (txt "envelope") (envelope_json e)
              (field (txt "verdict") (verdict_json v) end))));
  }

  unfoldable pub custom_verdict :
      IdentityEnvelope → IdentityVerdictKind → Text → Text → IdentityVerdict
  custom_verdict e IdentityVerdictKind.allow reason tool =
      with_hash e (allowance_body e reason tool)
  custom_verdict e verdict reason tool = with_hash e (refusal_body e verdict reason tool)

unfoldable pub receipt : IdentityEnvelope → IdentityVerdict → Receipt
receipt e v = record {
  stage = txt "tool";
  hash = v.receipt_hash;
  agent_id = e.agent_id;
  passport_id = e.passport_id;
  verdict = v.verdict;
  reason = v.reason;
}

-- What a call answers. `manifest` is given on some of the branches, `result` where the code has it.
pub data Reply : Type 0 where
  -- No session: nothing but the reason.
  no_session : Reply
  refusal :
      (decision tool reason : Text) (of_policy : Receipt) (manifest : Option BaseMcpTool)
      (result : Json)
      → Reply
  -- The envelope for a human, with nothing executed.
  human_required : (tool : BaseMcpTool) (approval : Json) (of_policy : Receipt) → Reply
  done : (tool : BaseMcpTool) (name : Text) (result : Json) (of_policy : Receipt) → Reply

unfoldable pub is_ok : Reply → Bool
is_ok (human_required t approval r) = true
is_ok (done t name result r) = true
is_ok r = false

unfoldable pub receipt_json : Receipt → Json
receipt_json r = obj (
    field (txt "stage") (str r.stage) (
      field (txt "hash") (str r.hash) (
        field (txt "agent_id") (str r.agent_id) (
          field (txt "passport_id") (str r.passport_id) (
            field (txt "verdict") (str (kind_text r.verdict))
              (field (txt "reason") (str r.reason) end))))))

manifest_json : BaseMcpTool → Json
manifest_json t =
    obj (field (txt "capability") (str (capability t)) (field (txt "risk") (str (risk t)) end))

maybe_manifest : Option BaseMcpTool → Json
unfolding manifest_json
maybe_manifest none = undefined
maybe_manifest (some t) = manifest_json t

unfoldable pub payload : Reply → Json
unfolding manifest_json maybe_manifest
payload no_session = obj (
    field (txt "ok") (bool false) (
      field (txt "decision") (str (txt "refuse"))
        (field (txt "reason") (str (txt "passport session unavailable")) end)))
payload (refusal decision tool reason r manifest result) = obj (
    field (txt "ok") (bool false) (
      field (txt "decision") (str decision) (
        field (txt "tool") (str tool) (
          field (txt "reason") (str reason) (
            field (txt "result") result (
              field (txt "receipt") (receipt_json r)
                (field (txt "manifest") (maybe_manifest manifest) end)))))))
payload (human_required t approval r) = obj (
    field (txt "ok") (bool true) (
      field (txt "decision") (str (txt "human_required")) (
        field (txt "tool") (str (tool_name t)) (
          field (txt "executed") (bool false) (
            field (txt "approval") approval (
              field (txt "receipt") (receipt_json r)
                (field (txt "manifest") (manifest_json t) end)))))))
payload (done t name result r) = obj (
    field (txt "ok") (bool true) (
      field (txt "decision") (str (txt "allow")) (
        field (txt "tool") (str name) (
          field (txt "result") result (
            field (txt "receipt") (receipt_json r)
              (field (txt "manifest") (manifest_json t) end))))))

-- `textResult(payload, isError)`: the error flag is set exactly on a reply that is not ok.
unfoldable pub text_result : Host → Reply → Json
text_result host r = obj (
    field (txt "content")
      (arr (
        cons
          (obj (
            field (txt "type") (str (txt "text"))
              (field (txt "text") (str (stringify host (payload r))) end)))
          nil))
      (field (txt "isError") (bool (not (is_ok r))) end))
