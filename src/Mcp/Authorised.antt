-- ===== src/Mcp/Authorised.antt =====
-- What the gateway hands to the runtime: at most one call, and only one that the passport, the kernel
-- and a capability grant let through.
use bankr_integration.Prelude.{
  ◌≡◌, ◌≢◌, refl, sym, subst, ◌⊎◌, inl, inr, Bool, true, false, not, ◌||◌, Option, none, some, List,
  [], ◌∷◌, ◌++◌, arith, All, Bool-cases, Option-cases, ap, ◌∙◌,
}
use bankr_integration.Js.Text.{Text, txt, ◌===◌, is_empty}
use bankr_integration.Js.Number.{Number}
use bankr_integration.Js.Json.{Json, obj, Fields, or_else, stringify}
use bankr_integration.Js.Host.{Host}
use bankr_integration.Kernel.Types.{IdentityEnvelope, ToolCallRequest, blocks, is_blocking, allow}
use bankr_integration.Kernel.Patterns.{is_harmful}
use bankr_integration.Kernel.Evaluate.{evaluate_tool_call}
use bankr_integration.Kernel.Tools.{Covers, evaluate_tool_call-allow_iff, evaluate_tool_call_grants}
use bankr_integration.Approval.Types.{ApprovedOperation, ApprovalReservation}
use bankr_integration.Approval.Usage.{Outcome, returned, threw, ReserveReply, granted, denied}
use bankr_integration.Mcp.Tools.{
  BaseMcpTool, tool_name, capability, tool_named, request_human_approved_contract_call,
}
use bankr_integration.Mcp.Session.{BaseMcpSession, grants_of, envelope_for}
use bankr_integration.Mcp.Args.{Checked-cases}
use bankr_integration.Mcp.Store.{ApprovalStore}
use bankr_integration.Mcp.Grant.{find_grant}
use bankr_integration.Mcp.Policy.{IsCoveredBy, find_grant-IsCoveredBy}
use bankr_integration.Mcp.Execution.{ExecutionInput, Runtime, Lifecycle, runtime_accepted}
use bankr_integration.Mcp.Call.{
  after_result, execute_allowed_tool, handed, after_release, caught, after_rejection,
  after_consumption, settle, after_reserve, run_governed, run_direct, run_tool, authorise,
  effective, passport_arg, call_tool, call_base_mcp_tool,
}

false_neq_true : false ≢ true
false_neq_true h = ground arith

abbrev OnlyRuns : ExecutionInput → List ExecutionInput → Type 0
OnlyRuns input xs = (xs ≡ []) ⊎ (xs ≡ input ∷ [])

module _ (S : Type 0) (host : Host) (runtime : Runtime) (e : IdentityEnvelope) where
  handed-OnlyRuns : (input : ExecutionInput) → OnlyRuns input (handed S host runtime e input)
  unfolding handed
  handed-OnlyRuns input = ground arith

  module _ (life : Lifecycle S) (r : ApprovalReservation) (input : ExecutionInput) where
    after_release-OnlyRuns :
        (reason : Text) (result : Json) (o : Outcome (Unit {0}) × S)
        → OnlyRuns input (after_release S host runtime e input reason result o).executed
    unfolding after_release
    after_release-OnlyRuns reason result (returned u, s) = handed-OnlyRuns input
    after_release-OnlyRuns reason result (threw m, s) = handed-OnlyRuns input

    caught-OnlyRuns :
        (m : Text) (s : S) → OnlyRuns input (caught S host runtime e life r input m s).executed
    unfolding caught
    caught-OnlyRuns m s = after_release-OnlyRuns _ _ _

    after_rejection-OnlyRuns :
        (result : Json) (o : Outcome (Unit {0}) × S)
        → OnlyRuns input (after_rejection S host runtime e life r input result o).executed
    unfolding after_rejection
    after_rejection-OnlyRuns result (returned u, s) = handed-OnlyRuns input
    after_rejection-OnlyRuns result (threw m, s) = caught-OnlyRuns m s

    after_consumption-OnlyRuns :
        (result : Json) (o : Outcome (Unit {0}) × S)
        → OnlyRuns input (after_consumption S host runtime e life r input result o).executed
    unfolding after_consumption
    after_consumption-OnlyRuns result (returned u, s) = handed-OnlyRuns input
    after_consumption-OnlyRuns result (threw m, s) = caught-OnlyRuns m s

    after_result-OnlyRuns :
        (result : Json) (b : Bool) (s : S)
        → OnlyRuns input (after_result S host runtime e life r input result b s).executed
    unfolding after_result
    after_result-OnlyRuns result true s = after_consumption-OnlyRuns result _
    after_result-OnlyRuns result false s = after_rejection-OnlyRuns result _

    settle-OnlyRuns :
        (o : Outcome Json) (s : S)
        → OnlyRuns input (settle S host runtime e life r input o s).executed
    unfolding settle
    settle-OnlyRuns (threw m) s = caught-OnlyRuns m s
    settle-OnlyRuns (returned result) s = after_result-OnlyRuns result (runtime_accepted result) s

  run_governed-OnlyRuns :
      (life : Option (Lifecycle S)) (a : ApprovedOperation) (input : ExecutionInput) (s : S)
      → OnlyRuns input (run_governed S host runtime e life a input s).executed
  unfolding run_governed after_reserve
  run_governed-OnlyRuns none a input s = inl refl
  run_governed-OnlyRuns (some life) a input s = go (life.reserve a input.of_policy.hash s)
    where
      go :
          (o : Outcome ReserveReply × S)
          → OnlyRuns input (after_reserve S host runtime e life input o).executed
      go (threw m, s) = inl refl
      go (returned (denied reason), s) = inl refl
      go (returned (granted r), s) =
          settle-OnlyRuns life r input (execute_allowed_tool S host runtime e input) s

  run_direct-OnlyRuns :
      (input : ExecutionInput) (o : Outcome Json) (s : S)
      → OnlyRuns input (run_direct S host runtime e input o s).executed
  unfolding run_direct
  run_direct-OnlyRuns input (returned result) s = handed-OnlyRuns input
  run_direct-OnlyRuns input (threw m) s = handed-OnlyRuns input

  run_tool-OnlyRuns :
      (life : Option (Lifecycle S)) (t : BaseMcpTool) (input : ExecutionInput)
      (a : Option ApprovedOperation) (s : S)
      → OnlyRuns input (run_tool S host runtime e life t input a s).executed
  unfolding run_tool
  run_tool-OnlyRuns life request_human_approved_contract_call input a s = inl refl
  run_tool-OnlyRuns life t input (some a) s = run_governed-OnlyRuns life a input s
  run_tool-OnlyRuns life t input none s = run_direct-OnlyRuns input _ s

-- What the code checks before it executes a tool: the name is that of the tool, the envelope's scope
-- covers its capability, no harmful pattern is in the serialised arguments, and the grant covers it.
abbrev pub IsAuthorised : Host → Number → Text → BaseMcpSession → ExecutionInput → Type 0
IsAuthorised host now name session input =
    (tool_named name ≡ some input.tool)
    × (input.session ≡ session)
    × Covers (envelope_for session (txt "Base MCP tool request: " ++ name)).authority_scope
        (capability input.tool)
    × (is_harmful (stringify host (obj input.args)) ≡ false)
    × IsCoveredBy host now input.tool input.args input.grant

module _ (S : Type 0) (host : Host) (now : Number) (runtime : Runtime)
    (store : Option (ApprovalStore S)) (name : Text) (session : BaseMcpSession) where
  All-OnlyRuns :
      (input : ExecutionInput) (xs : List ExecutionInput)
      → OnlyRuns input xs
      → IsAuthorised host now name session input
      → All (IsAuthorised host now name session) xs
  All-OnlyRuns input xs (inl h) p = subst (All (IsAuthorised host now name session)) (sym h) tt
  All-OnlyRuns input xs (inr h) p = subst (All (IsAuthorised host now name session)) (sym h) (p, tt)

  abbrev the_envelope : IdentityEnvelope
  the_envelope = envelope_for session (txt "Base MCP tool request: " ++ name)

  allowed_of :
      (c : ToolCallRequest)
      → is_blocking (evaluate_tool_call host the_envelope c) ≡ false
      → (evaluate_tool_call host the_envelope c).verdict ≡ allow
  unfolding is_blocking
  allowed_of c h = elim (evaluate_tool_call_grants host the_envelope c) [
    | inl (v, _, _) ↦ v
    | inr (v, _, _) ↦ absurd (false_neq_true (sym h ∙ ap blocks v))
  ]

  authorise-IsAuthorised :
      (t : BaseMcpTool) (args : Fields) (a : Option ApprovedOperation) (s : S)
      → tool_named name ≡ some t
      → All
          (IsAuthorised host now name session)
          (authorise S host now runtime store the_envelope session t args a s).executed
  unfolding authorise or_else
  authorise-IsAuthorised t args a s named =
      let call : ToolCallRequest = record { name = capability t; args = obj args } in
      elim (Bool-cases (is_blocking (evaluate_tool_call host the_envelope call))) [
        | inl h ↦ rw h tt
        | inr h ↦ rw h (elim (Checked-cases (find_grant host now t args (grants_of session))) [
          | inl (reason, f) ↦ rw f tt
          | inr (g, f) ↦
              let (covered, harmless) =
                (evaluate_tool_call-allow_iff host the_envelope call).0 (allowed_of call h) in
              rw f (
                All-OnlyRuns _ _ (run_tool-OnlyRuns S host runtime the_envelope _ t _ a s) (
                  named,
                  refl,
                  covered,
                  harmless,
                  find_grant-IsCoveredBy host now t args (grants_of session) g f,
                ))
        ])
      ]

  call_tool-IsAuthorised :
      (t : BaseMcpTool) (args : Fields) (s : S)
      → tool_named name ≡ some t
      → All
          (IsAuthorised host now name session)
          (call_tool S host now runtime store the_envelope session t args s).executed
  unfolding call_tool
  call_tool-IsAuthorised t args s named =
      elim (Bool-cases (
        is_empty (passport_arg args) || not (passport_arg args === session.passport.passport_id))) [
          | inl h ↦ rw h tt
          | inr h ↦
              rw h (elim (Checked-cases (effective S host now runtime store t args session s)) [
                | inl (reason, f) ↦ rw f tt
                | inr ((args', a), f) ↦ rw f (authorise-IsAuthorised t args' a s named)
              ])
        ]

  -- For every store of approvals, runtime, session, tool name, arguments and state, each input that
  -- callBaseMcpTool hands to a method of the runtime is for the tool of that name and for the given
  -- session, its capability is covered by the authority scope of the envelope, its serialised
  -- arguments hold no harmful pattern, and its grant covers the call: same capability, not past its
  -- expiry, for the call's chain or for any, with what the tool demands of a grant met.
  pub call-IsAuthorised :
      (args : Fields) (s : S)
      → All
          (IsAuthorised host now name session)
          (call_base_mcp_tool S host now runtime store name args (some session) s).executed
  unfolding call_base_mcp_tool tool_named ◌===◌ tool_name txt
  call-IsAuthorised args s = elim (Option-cases (tool_named name)) [
    | inl h ↦ rw h tt
    | inr (t, h) ↦ rw h (call_tool-IsAuthorised t args s h)
  ]
