-- ===== src/Kernel/Tools.antt =====
-- When the identity kernel lets a tool call through (`evaluateToolCall`, `checkAuthorityScope`).
use bankr_integration.Prelude.{inl, inr, ◌≡◌, ◌↔◌, ◌⊎◌, true, false, List, [], ◌∷◌, arith}
use bankr_integration.Js.Text.{Text, txt, ===_iff, Listed, includes-Listed, Listed-includes}
use bankr_integration.Js.Json.{obj, end, or_else, stringify}
use bankr_integration.Js.Host.{Host}
use bankr_integration.Kernel.Types.{IdentityEnvelope, ToolCallRequest, allow, refuse}
use bankr_integration.Kernel.Patterns.{is_harmful}
use bankr_integration.Kernel.Authority.{tool_permission_from_scope, with_receipt}
use bankr_integration.Kernel.Evaluate.{
  tool_body, refused_tool, allowed_tool, plain_body, evaluate_tool_call, check_authority_scope,
}

-- The authority scope names the tool, or it names `search` and the tool is one that searches.
abbrev pub Covers : List Text → Text → Type 0
Covers scopes tool =
    Listed tool scopes
    ⊎ (((tool ≡ txt "browser") ⊎ (tool ≡ txt "search_graph")) × Listed (txt "search") scopes)

-- The test of the code decides the relation.
pub permission_iff :
    (scopes : List Text) (tool : Text)
    → (tool_permission_from_scope scopes tool ≡ true) ↔ Covers scopes tool
unfolding tool_permission_from_scope
permission_iff scopes tool = ground (
  arith,
  includes-Listed tool scopes,
  Listed-includes tool scopes,
  includes-Listed (txt "search") scopes,
  Listed-includes (txt "search") scopes,
  ===_iff tool (txt "browser"),
  ===_iff tool (txt "search_graph"),
)

module _ (host : Host) where
  -- A tool call is allowed exactly when the authority scope covers the tool and its serialised
  -- arguments hold none of the harmful patterns.
  pub evaluate_tool_call-allow_iff :
      (e : IdentityEnvelope) (c : ToolCallRequest)
      → ((evaluate_tool_call host e c).verdict ≡ allow) ↔ (
          Covers e.authority_scope c.name
          × (is_harmful (stringify host (or_else c.args (obj end))) ≡ false))
  unfolding evaluate_tool_call with_receipt tool_body refused_tool allowed_tool plain_body
  evaluate_tool_call-allow_iff e c = ground (arith, permission_iff e.authority_scope c.name)

  -- Every verdict on a tool call either allows it, grants that tool alone and denies nothing, or
  -- refuses it, grants nothing and denies that tool alone.
  pub evaluate_tool_call_grants :
      (e : IdentityEnvelope) (c : ToolCallRequest)
      → let v = evaluate_tool_call host e c in
        ((v.verdict ≡ allow) × (v.tool_grants ≡ c.name ∷ []) × (v.tool_denials ≡ []))
        ⊎ ((v.verdict ≡ refuse) × (v.tool_grants ≡ []) × (v.tool_denials ≡ c.name ∷ []))
  unfolding evaluate_tool_call with_receipt tool_body refused_tool allowed_tool plain_body
  evaluate_tool_call_grants e c = ground arith

  -- The capability check allows exactly the capabilities that the scope covers, as the check of a
  -- tool call does.
  pub check_authority_scope-allow_iff :
      (e : IdentityEnvelope) (capability : Text)
      → ((check_authority_scope host e capability).verdict ≡ allow)
        ↔ Covers e.authority_scope capability
  unfolding check_authority_scope with_receipt refused_tool allowed_tool plain_body
  check_authority_scope-allow_iff e capability = ground (
    arith,
    permission_iff e.authority_scope capability,
    includes-Listed capability e.authority_scope,
  )

  Covers-mono :
      (xs ys : List Text) (tool : Text)
      → ((t : Text) → Listed t xs → Listed t ys)
      → Covers xs tool
      → Covers ys tool
  Covers-mono xs ys tool sub (inl h) = inl (sub tool h)
  Covers-mono xs ys tool sub (inr (h, k)) = inr (h, sub (txt "search") k)

  -- A tool call that is allowed under an authority scope is allowed under every scope that lists at
  -- least the same entries.
  evaluate_tool_call_mono :
      (e : IdentityEnvelope) (wider : List Text) (c : ToolCallRequest)
      → ((t : Text) → Listed t e.authority_scope → Listed t wider)
      → (evaluate_tool_call host e c).verdict ≡ allow
      → (evaluate_tool_call host (record e { authority_scope = wider }) c).verdict ≡ allow
  evaluate_tool_call_mono e wider c sub h =
      let (covered, harmless) = (evaluate_tool_call-allow_iff e c).0 h in
      (evaluate_tool_call-allow_iff (record e { authority_scope = wider }) c).1
        (Covers-mono e.authority_scope wider c.name sub covered, harmless)
