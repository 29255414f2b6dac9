-- ===== src/Gate/Events.antt =====
-- When a gated turn calls the model and the tools.
use bankr_integration.Prelude.{
  ◌≡◌, refl, subst, inl, inr, false, Option, none, some, List, [], ◌∷◌, arith, Bool-cases,
  Option-cases, All, filter,
}
use bankr_integration.Js.Json.{Json}
use bankr_integration.Kernel.Types.{
  IdentityEnvelope, IdentityVerdict, Receipt, ToolCallRequest, ContextEvaluationRequest, blocks,
  is_blocking,
}
use bankr_integration.Gate.Turn.{
  GateInput, ModelInput, ModelResult, Event, asked, ran, is_transform, is_downgrade, Admission,
  stopped, admitted, admit, ToolOutcome, refused, threw, went, run_tool, tool_step, after_tool,
  after_model, model_input, after_context, run_identity_kernel_gated_turn,
}
use bankr_integration.Gate.Context.{keeps, admit-IsAdmission}

module _ (input : GateInput) where
  open input use {envelope, kernel}

  -- An item that the context evaluator let through.
  abbrev pub IsShown : ContextEvaluationRequest → Type 0
  IsShown item =
      (f : IdentityEnvelope → ContextEvaluationRequest → IdentityVerdict) × (kernel.evaluate_context
        ≡ some f)
      × (blocks (f envelope item).verdict ≡ false)
      × (is_transform (f envelope item).verdict ≡ false)

  -- A tool call that the tool evaluator let through.
  abbrev pub IsCleared : ToolCallRequest → Type 0
  IsCleared call =
      (f : IdentityEnvelope → ToolCallRequest → IdentityVerdict) × (kernel.evaluate_tool_call
        ≡ some f)
      × (blocks (f envelope call).verdict ≡ false)
      × (is_downgrade (f envelope call).verdict ≡ false)

  -- The model is asked only after the prompt is cleared, for the request of the envelope, and with
  -- items of context that the evaluator let through; a tool runs only on a call that is cleared.
  abbrev pub IsPermitted : Event → Type 0
  IsPermitted (asked i) =
      (blocks (kernel.evaluate_prompt envelope).verdict ≡ false)
      × (i.user_request ≡ envelope.user_request)
      × All IsShown i.context
  IsPermitted (ran call) = IsCleared call

  IsShown-filter :
      (f : IdentityEnvelope → ContextEvaluationRequest → IdentityVerdict)
      (items : List ContextEvaluationRequest)
      → kernel.evaluate_context ≡ some f
      → All (λ item. blocks (f envelope item).verdict ≡ false) items
      → All IsShown (filter (keeps envelope f) items)
  IsShown-filter f [] e h = tt
  IsShown-filter f (item ∷ items) e (b, h) =
      elim (Bool-cases (is_transform (f envelope item).verdict)) [
        | inl t ↦ rw t (IsShown-filter f items e h)
        | inr t ↦ rw t ((f, e, b, t), IsShown-filter f items e h)
      ]

  -- The two outcomes of the tool step that record a call.
  abbrev Records : ToolOutcome → Type 0
  Records (refused g) = Unit
  Records (threw call) = IsCleared call
  Records (went rs results events) = All IsPermitted events

  run_tool-Records :
      (tool : Option (Json → Option Json)) (call : ToolCallRequest) (rs : List Receipt)
      → IsCleared call
      → Records (run_tool tool call rs)
  unfolding run_tool
  run_tool-Records none call rs c = tt
  run_tool-Records (some tool) call rs c = elim (Option-cases (tool call.args)) [
    | inl failed ↦ rw (failed, run_tool) c
    | inr (result, done) ↦ rw (done, run_tool) (c, tt)
  ]

  tool_step-Records :
      (f : Option (IdentityEnvelope → ToolCallRequest → IdentityVerdict))
      (call : Option ToolCallRequest) (rs : List Receipt)
      → kernel.evaluate_tool_call ≡ f
      → Records (tool_step input f call rs)
  unfolding tool_step is_blocking
  tool_step-Records f none rs e = tt
  tool_step-Records none (some call) rs e = tt
  tool_step-Records (some f) (some call) rs e =
      elim (Bool-cases (blocks (f envelope call).verdict)) [
        | inl b ↦ rw b tt
        | inr b ↦ elim (Bool-cases (is_downgrade (f envelope call).verdict)) [
          | inl d ↦ rw (b, d) tt
          | inr d ↦ rw (b, d) (run_tool-Records (input.tools call.name) call _ (f, e, b, d))
        ]
      ]

  after_tool-IsPermitted :
      (i : ModelInput) (m : ModelResult) (t : ToolOutcome)
      → IsPermitted (asked i)
      → Records t
      → All IsPermitted (after_tool input i m t).events
  unfolding after_tool
  after_tool-IsPermitted i m (refused g) h r = (h, tt)
  after_tool-IsPermitted i m (threw call) h r = (h, (r, tt))
  after_tool-IsPermitted i m (went rs results events) h r = (h, r)

  after_model-IsPermitted :
      (i : ModelInput) (rs : List Receipt) (m : Option ModelResult)
      → IsPermitted (asked i)
      → All IsPermitted (after_model input i rs m).events
  unfolding after_model
  after_model-IsPermitted i rs none h = (h, tt)
  after_model-IsPermitted i rs (some m) h =
      after_tool-IsPermitted i m _ h
        (tool_step-Records kernel.evaluate_tool_call m.requested_tool rs refl)

  admit-IsShown :
      (f : Option (IdentityEnvelope → ContextEvaluationRequest → IdentityVerdict))
      (items kept : List ContextEvaluationRequest) (rs rs' : List Receipt)
      → kernel.evaluate_context ≡ f
      → admit envelope f items [] rs ≡ admitted kept rs'
      → All IsShown kept
  unfolding admit
  admit-IsShown none [] kept rs rs' e h = subst (All IsShown) {x = []} (ground arith) tt
  admit-IsShown none (item ∷ items) kept rs rs' e h = absurd (ground arith)
  admit-IsShown (some f) items kept rs rs' e h =
      let a = admit-IsAdmission envelope f items [] kept rs rs' h in
      rw a.kept_items (IsShown-filter f items e a.unblocked)

  after_context-IsPermitted :
      (a : Admission)
      → blocks (kernel.evaluate_prompt envelope).verdict ≡ false
      → ((kept : List ContextEvaluationRequest) (rs : List Receipt)
          → a ≡ admitted kept rs
          → All IsShown kept)
      → All IsPermitted (after_context input (kernel.evaluate_prompt envelope) a).events
  unfolding after_context model_input
  after_context-IsPermitted (stopped g) b shown = tt
  after_context-IsPermitted (admitted kept rs) b shown =
      after_model-IsPermitted _ rs _ (b, refl, shown kept rs refl)

  -- With any evaluators, a gated turn calls the model only if the prompt's verdict does not block,
  -- for the envelope's request and with context items that the context evaluator neither blocks nor
  -- transforms, and runs a tool only on a call that the tool evaluator neither blocks nor
  -- downgrades.
  pub gated_turn-IsPermitted : All IsPermitted (run_identity_kernel_gated_turn input).events
  unfolding run_identity_kernel_gated_turn is_blocking
  gated_turn-IsPermitted = elim (Bool-cases (blocks (kernel.evaluate_prompt envelope).verdict)) [
    | inl b ↦ rw b tt
    | inr b ↦ rw b (
        after_context-IsPermitted _ b
          (λ kept rs h. admit-IsShown kernel.evaluate_context input.context kept _ rs refl h))
  ]
