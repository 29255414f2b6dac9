-- ===== src/Gate/Turn.antt =====
-- `runIdentityKernelGatedTurn` of services/gateway/src/identity-kernel-gate.ts. The model and the
-- tools are arguments; `none` stands for a promise that rejects, and then the turn rejects too. The
-- calls of the model and of the tools are recorded in order.
use bankr_integration.Prelude.{
  Bool, true, false, Option, none, some, List, [], ◌∷◌, ◌++◌, if◌then◌else◌,
}
use bankr_integration.Js.Text.{Text, txt, pad_end_64}
use bankr_integration.Js.Json.{Json}
use bankr_integration.Kernel.Types.{
  IdentityVerdictKind, transform, require_human, downgrade_tools, IdentityEnvelope, IdentityVerdict,
  Receipt, ToolCallRequest, ContextEvaluationRequest, OutputEvaluationRequest, is_blocking,
}

pub record ModelInput : Type 0 where
  pub user_request : Text
  pub context : List ContextEvaluationRequest
  pub constraints : List Text

pub record ModelResult : Type 0 where
  pub text : Text
  pub requested_tool : Option ToolCallRequest

-- The last three evaluators may be missing at run time, which the code tests for.
pub record IdentityKernelRuntime : Type 0 where
  pub evaluate_prompt : IdentityEnvelope → IdentityVerdict
  pub evaluate_context : Option (IdentityEnvelope → ContextEvaluationRequest → IdentityVerdict)
  pub evaluate_tool_call : Option (IdentityEnvelope → ToolCallRequest → IdentityVerdict)
  pub evaluate_output : Option (IdentityEnvelope → OutputEvaluationRequest → IdentityVerdict)

pub record GateInput : Type 0 where
  pub envelope : IdentityEnvelope
  pub context : List ContextEvaluationRequest
  pub kernel : IdentityKernelRuntime
  pub model : ModelInput → Option ModelResult
  -- `none` for a name that is no tool.
  pub tools : Text → Option (Json → Option Json)

pub record IdentityKernelGateResult : Type 0 where
  pub released : Bool
  pub output : Text
  pub final_verdict : IdentityVerdict
  pub receipts : List Receipt
  pub tool_results : List Json

pub data Event : Type 0 where
  asked : ModelInput → Event
  ran : ToolCallRequest → Event

pub record Turn : Type 0 where
  pub events : List Event
  pub result : Option IdentityKernelGateResult

unfoldable pub receipt : Text → IdentityEnvelope → IdentityVerdict → Receipt
receipt stage e v = record {
  stage = stage;
  hash = v.receipt_hash;
  agent_id = e.agent_id;
  passport_id = e.passport_id;
  verdict = v.verdict;
  reason = v.reason;
}

unfoldable pub missing_evaluator : IdentityEnvelope → Text → Text → IdentityVerdict
missing_evaluator e stage name = record {
  body = record {
    verdict = require_human;
    reason = txt "missing " ++ name ++ txt " evaluator; runtime would otherwise be default-open";
    safe_instruction =
        txt "Identity Kernel is misconfigured: missing "
        ++ name
        ++ txt " evaluator. Stop before "
        ++ stage
        ++ txt " boundary and require operator repair.";
    tool_grants = [];
    tool_denials = [];
    active_constraints =
        (txt "identity:" ++ e.agent_id)
        ∷ (txt "passport:" ++ e.passport_id)
        ∷ (txt "stage:" ++ stage)
        ∷ txt "fail_closed:true"
        ∷ [];
  };
  receipt_hash = pad_end_64 (txt "missing-" ++ stage);
}

-- The early returns: nothing is released, and the output is the verdict's instruction.
unfoldable pub withhold : IdentityVerdict → List Receipt → List Json → IdentityKernelGateResult
withhold v receipts results = record {
  released = false;
  output = v.safe_instruction;
  final_verdict = v;
  receipts = receipts;
  tool_results = results;
}

abbrev pub is_transform : IdentityVerdictKind → Bool
is_transform transform = true
is_transform k = false

abbrev pub is_downgrade : IdentityVerdictKind → Bool
is_downgrade downgrade_tools = true
is_downgrade k = false

-- How the loop over the context ends.
pub data Admission : Type 0 where
  stopped : IdentityKernelGateResult → Admission
  admitted : List ContextEvaluationRequest → List Receipt → Admission

module _ (e : IdentityEnvelope) where
  unfoldable pub admit_item :
      List ContextEvaluationRequest
      → ContextEvaluationRequest
      → IdentityVerdict
      → List ContextEvaluationRequest
  admit_item kept item v = if is_transform v.verdict then kept else kept ++ item ∷ []

  -- The loop over the context, with what it has admitted and its receipts so far.
  unfoldable pub admit :
      Option (IdentityEnvelope → ContextEvaluationRequest → IdentityVerdict)
      → List ContextEvaluationRequest
      → List ContextEvaluationRequest
      → List Receipt
      → Admission
  unfolding admit_item
  admit evaluator [] kept receipts = admitted kept receipts
  admit none (item ∷ items) kept receipts =
      let v = missing_evaluator e (txt "context") (txt "context") in
      stopped (withhold v (receipts ++ receipt (txt "context") e v ∷ []) [])
  admit (some f) (item ∷ items) kept receipts =
      let v = f e item in
      let receipts' = receipts ++ receipt (txt "context") e v ∷ [] in
      let rest = admit (some f) items (admit_item kept item v) receipts' in
      if is_blocking v then stopped (withhold v receipts' []) else rest

-- How the tool call ends: the turn is over, a tool threw, or the turn goes on with the results.
pub data ToolOutcome : Type 0 where
  refused : IdentityKernelGateResult → ToolOutcome
  threw : ToolCallRequest → ToolOutcome
  went : List Receipt → List Json → List Event → ToolOutcome

unfoldable pub run_tool : Option (Json → Option Json) → ToolCallRequest → List Receipt → ToolOutcome
run_tool none call receipts = went receipts [] []
run_tool (some tool) call receipts = elim (tool call.args) [
  | none ↦ threw call
  | some result ↦ went receipts (result ∷ []) (ran call ∷ [])
]

module _ (input : GateInput) where
  -- The block `if (modelResult.requestedTool)`.
  unfoldable pub tool_step :
      Option (IdentityEnvelope → ToolCallRequest → IdentityVerdict)
      → Option ToolCallRequest
      → List Receipt
      → ToolOutcome
  tool_step evaluator none receipts = went receipts [] []
  tool_step none (some call) receipts =
      let v = missing_evaluator input.envelope (txt "tool") (txt "tool") in
      refused (withhold v (receipts ++ receipt (txt "tool") input.envelope v ∷ []) [])
  tool_step (some f) (some call) receipts =
      let v = f input.envelope call in
      let receipts' = receipts ++ receipt (txt "tool") input.envelope v ∷ [] in
      if is_blocking v
      then refused (withhold v receipts' [])
      else if is_downgrade v.verdict
      then went receipts' [] []
      else run_tool (input.tools call.name) call receipts'

  -- The last part of the turn, over the model's text.
  unfoldable pub output_step :
      Option (IdentityEnvelope → OutputEvaluationRequest → IdentityVerdict)
      → Text
      → List Receipt
      → List Json
      → IdentityKernelGateResult
  output_step none text receipts results =
      let v = missing_evaluator input.envelope (txt "output") (txt "output") in
      withhold v (receipts ++ receipt (txt "output") input.envelope v ∷ []) results
  output_step (some f) text receipts results =
      let v = f input.envelope (record { draft_output = text }) in
      let receipts' = receipts ++ receipt (txt "output") input.envelope v ∷ [] in
      if is_blocking v then withhold v receipts' results else record {
        released = true;
        output = if is_transform v.verdict then v.safe_instruction else text;
        final_verdict = v;
        receipts = receipts';
        tool_results = results;
      }

  unfoldable pub after_tool : ModelInput → ModelResult → ToolOutcome → Turn
  after_tool i m (refused g) = record { events = asked i ∷ []; result = some g }
  after_tool i m (threw call) = record { events = asked i ∷ ran call ∷ []; result = none }
  after_tool i m (went receipts results events) = record {
    events = asked i ∷ events;
    result = some (output_step input.kernel.evaluate_output m.text receipts results);
  }

  unfoldable pub after_model : ModelInput → List Receipt → Option ModelResult → Turn
  after_model i receipts none = record { events = asked i ∷ []; result = none }
  after_model i receipts (some m) =
      after_tool i m (tool_step input.kernel.evaluate_tool_call m.requested_tool receipts)

  unfoldable pub model_input : IdentityVerdict → List ContextEvaluationRequest → ModelInput
  model_input prompt kept = record {
    user_request = input.envelope.user_request;
    context = kept;
    constraints = prompt.active_constraints;
  }

  unfoldable pub after_context : IdentityVerdict → Admission → Turn
  after_context prompt (stopped g) = record { events = []; result = some g }
  after_context prompt (admitted kept receipts) =
      let i = model_input prompt kept in after_model i receipts (input.model i)

  unfoldable pub run_identity_kernel_gated_turn : Turn
  run_identity_kernel_gated_turn =
      let prompt = input.kernel.evaluate_prompt input.envelope in
      let receipts = receipt (txt "pre_llm") input.envelope prompt ∷ [] in
      if is_blocking prompt
      then record { events = []; result = some (withhold prompt receipts []) }
      else after_context prompt
          (admit input.envelope input.kernel.evaluate_context input.context [] receipts)
