-- ===== src/Kernel/Authority.antt =====
-- Which tools an authority scope covers, the constraints of a turn, and the receipt of a verdict
-- (`toolPermissionFromScope`, `activeConstraints`, `withReceipt`).
use bankr_integration.Prelude.{Bool, ◌≡◌, refl, ◌&&◌, ◌||◌, Option, none, some, List, [], ◌∷◌, ◌++◌}
use bankr_integration.Js.Text.{Text, txt, ◌===◌, includes, join, sort_by, text_le}
use bankr_integration.Js.Json.{Json, str, arr, obj, end, field, strings, sha256}
use bankr_integration.Js.Host.{Host}
use bankr_integration.Kernel.Types.{IdentityEnvelope, VerdictBody, IdentityVerdict, kind_text}

unfoldable pub tool_permission_from_scope : List Text → Text → Bool
tool_permission_from_scope scopes tool =
    includes scopes tool
    || (tool === txt "browser" && includes scopes (txt "search"))
    || (tool === txt "search_graph" && includes scopes (txt "search"))

unfoldable pub active_constraints : IdentityEnvelope → List Text
active_constraints e =
    (txt "identity:" ++ e.agent_id)
    ∷ (txt "passport:" ++ e.passport_id)
    ∷ (txt "system:" ++ e.active_system_prompt_hash)
    ∷ (txt "risk:" ++ e.risk_context)
    ∷ (txt "authority:" ++ join (txt ",") (sort_by text_le e.authority_scope))
    ∷ []

abbrev pub or_none : Option (List Text) → List Text
or_none none = []
or_none (some xs) = xs

texts : List Text → Json
texts xs = arr (strings xs)

envelope_json : IdentityEnvelope → Json
envelope_json e = obj (
    field (txt "agent_id") (str e.agent_id) (
      field (txt "passport_id") (str e.passport_id) (
        field (txt "active_system_prompt_hash") (str e.active_system_prompt_hash) (
          field (txt "authority_scope") (texts e.authority_scope) (
            field (txt "requested_tools") (texts (or_none e.requested_tools)) (
              field (txt "memory_refs") (texts (or_none e.memory_refs)) (
                field (txt "risk_context") (str e.risk_context)
                  (field (txt "user_request") (str e.user_request) end))))))))

unfoldable pub verdict_json : VerdictBody → Json
unfolding texts
verdict_json v = obj (
    field (txt "verdict") (str (kind_text v.verdict)) (
      field (txt "reason") (str v.reason) (
        field (txt "safe_instruction") (str v.safe_instruction) (
          field (txt "tool_grants") (texts v.tool_grants) (
            field (txt "tool_denials") (texts v.tool_denials)
              (field (txt "active_constraints") (texts v.active_constraints) end))))))

module _ (host : Host) where
  unfoldable pub with_receipt : IdentityEnvelope → Text → VerdictBody → Json → IdentityVerdict
  unfolding envelope_json texts
  with_receipt e stage v extra = record {
    body = v;
    receipt_hash = sha256 host (
        obj (
          field (txt "stage") (str stage) (
            field (txt "envelope") (envelope_json e)
              (field (txt "verdict") (verdict_json v) (field (txt "extra") extra end)))));
  }

  -- A receipt adds the hash and changes nothing else of the verdict.
  pub with_receipt-body :
      (e : IdentityEnvelope) (stage : Text) (v : VerdictBody) (extra : Json)
      → (with_receipt e stage v extra).body ≡ v
  unfolding with_receipt
  with_receipt-body e stage v extra = refl
