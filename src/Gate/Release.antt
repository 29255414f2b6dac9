-- ===== src/Gate/Release.antt =====
-- What a gated turn returns: a release with every verdict clear, or the instruction of the verdict
-- that stopped it.
use bankr_integration.Prelude.{
  ◌≡◌, refl, inl, inr, true, false, Option, none, some, List, [], ◌∷◌, arith, Bool-cases,
  Option-cases, All, All-append, if◌then◌else◌, ◌⊎◌, subst, transfer_some,
}
use bankr_integration.Js.Json.{Json}
use bankr_integration.Js.Text.{txt}
use bankr_integration.Kernel.Types.{
  IdentityEnvelope, IdentityVerdict, Receipt, ToolCallRequest, ContextEvaluationRequest,
  OutputEvaluationRequest, blocks, is_blocking,
}
use bankr_integration.Gate.Turn.{
  GateInput, ModelInput, ModelResult, IdentityKernelGateResult, receipt, is_transform, is_downgrade,
  withhold, missing_evaluator, Admission, stopped, admitted, admit, ToolOutcome, refused, threw,
  went, run_tool, tool_step, output_step, after_tool, after_model, model_input, after_context,
  run_identity_kernel_gated_turn,
}
use bankr_integration.Gate.Context.{
  IsWithheld, IsClear, admit-IsAdmission, admit_stopped-IsWithheld,
}

module _ (input : GateInput) where
  open input use {envelope, kernel}

  -- A release: the model answered, the output evaluator saw its text and did not block, and the
  -- output is that text, or the evaluator's instruction where the verdict is `transform`. No receipt
  -- of the turn is of a blocking verdict.
  pub record IsRelease (g : IdentityKernelGateResult) : Type 0 where
    pub asked_input : ModelInput
    pub answer : ModelResult
    pub answered : input.model asked_input ≡ some answer
    pub evaluator : IdentityEnvelope → OutputEvaluationRequest → IdentityVerdict
    pub evaluates : kernel.evaluate_output ≡ some evaluator
    pub final : g.final_verdict ≡ evaluator envelope (record { draft_output = answer.text })
    pub unblocked : blocks g.final_verdict.verdict ≡ false
    pub prompt_unblocked : blocks (kernel.evaluate_prompt envelope).verdict ≡ false
    pub text : g.output ≡ (
        if is_transform g.final_verdict.verdict
        then g.final_verdict.safe_instruction
        else answer.text)
    pub clear : All IsClear g.receipts

  abbrev pub Outcome : IdentityKernelGateResult → Type 0
  Outcome g = IsWithheld g ⊎ ((g.released ≡ true) × IsRelease g)

  output_step-Outcome :
      (f : Option (IdentityEnvelope → OutputEvaluationRequest → IdentityVerdict)) (i : ModelInput)
      (m : ModelResult) (rs : List Receipt) (results : List Json)
      → kernel.evaluate_output ≡ f
      → input.model i ≡ some m
      → blocks (kernel.evaluate_prompt envelope).verdict ≡ false
      → All IsClear rs
      → Outcome (output_step input f m.text rs results)
  unfolding output_step is_blocking withhold missing_evaluator receipt
  output_step-Outcome none i m rs results e answered p c =
      inl (record { unreleased = refl; blocked = refl; instructed = refl })
  output_step-Outcome (some f) i m rs results e answered p c =
      let v = f envelope (record { draft_output = m.text }) in
      elim (Bool-cases (blocks v.verdict)) [
        | inl b ↦ rw b (inl (record { unreleased = refl; blocked = b; instructed = refl }))
        | inr b ↦ rw b (
            inr (
              refl,
              record {
                asked_input = i;
                answer = m;
                answered = answered;
                evaluator = f;
                evaluates = e;
                final = refl;
                unblocked = b;
                prompt_unblocked = p;
                text = refl;
                clear = All-append IsClear rs _ c (b, tt);
              },
            ))
      ]

  -- What the tool step hands on.
  abbrev Continues : ToolOutcome → Type 0
  Continues (refused g) = IsWithheld g
  Continues (threw call) = Unit
  Continues (went rs results events) = All IsClear rs

  run_tool-Continues :
      (tool : Option (Json → Option Json)) (call : ToolCallRequest) (rs : List Receipt)
      → All IsClear rs
      → Continues (run_tool tool call rs)
  unfolding run_tool
  run_tool-Continues none call rs c = c
  run_tool-Continues (some tool) call rs c = elim (Option-cases (tool call.args)) [
    | inl failed ↦ rw (failed, run_tool) tt
    | inr (result, done) ↦ rw (done, run_tool) c
  ]

  tool_step-Continues :
      (f : Option (IdentityEnvelope → ToolCallRequest → IdentityVerdict))
      (call : Option ToolCallRequest) (rs : List Receipt)
      → All IsClear rs
      → Continues (tool_step input f call rs)
  unfolding tool_step is_blocking withhold missing_evaluator receipt
  tool_step-Continues f none rs c = c
  tool_step-Continues none (some call) rs c = record {
    unreleased = refl;
    blocked = refl;
    instructed = refl;
  }
  tool_step-Continues (some f) (some call) rs c =
      elim (Bool-cases (blocks (f envelope call).verdict)) [
        | inl b ↦ rw b (record { unreleased = refl; blocked = b; instructed = refl })
        | inr b ↦
            let c' =
              All-append IsClear rs (receipt (txt "tool") envelope (f envelope call) ∷ []) c
                (b, tt) in
            elim (Bool-cases (is_downgrade (f envelope call).verdict)) [
              | inl d ↦ rw (b, d) c'
              | inr d ↦ rw (b, d) (run_tool-Continues (input.tools call.name) call _ c')
            ]
      ]

  after_tool-Outcome :
      (i : ModelInput) (m : ModelResult) (t : ToolOutcome) {g : IdentityKernelGateResult}
      → input.model i ≡ some m
      → blocks (kernel.evaluate_prompt envelope).verdict ≡ false
      → Continues t
      → (after_tool input i m t).result ≡ some g
      → Outcome g
  unfolding after_tool
  after_tool-Outcome i m (refused g') answered p w h = transfer_some Outcome {a = g'} h (inl w)
  after_tool-Outcome i m (threw call) answered p w h = cc
  after_tool-Outcome i m (went rs results events) answered p c h =
      transfer_some Outcome h
        (output_step-Outcome kernel.evaluate_output i m rs results refl answered p c)

  after_context-Outcome :
      (a : Admission) {g : IdentityKernelGateResult}
      → blocks (kernel.evaluate_prompt envelope).verdict ≡ false
      → ((g' : IdentityKernelGateResult) → a ≡ stopped g' → IsWithheld g')
      → ((kept : List ContextEvaluationRequest) (rs : List Receipt)
          → a ≡ admitted kept rs
          → All IsClear rs)
      → (after_context input (kernel.evaluate_prompt envelope) a).result ≡ some g
      → Outcome g
  unfolding after_context after_model
  after_context-Outcome (stopped g') p w c h = transfer_some Outcome {a = g'} h (inl (w g' refl))
  after_context-Outcome (admitted kept rs) {g} p w c h =
      let i = model_input input (kernel.evaluate_prompt envelope) kept in
      elim (Option-cases (input.model i)) [
        | inl failed ↦ absurd (ground arith)
        | inr (m, answered) ↦
            after_tool-Outcome i m _ answered p
              (tool_step-Continues kernel.evaluate_tool_call m.requested_tool rs (c kept rs refl))
              (rw (answered, after_model) at h)
      ]

  admit-IsClear :
      (f : Option (IdentityEnvelope → ContextEvaluationRequest → IdentityVerdict))
      (items kept : List ContextEvaluationRequest) (rs rs' : List Receipt)
      → All IsClear rs
      → admit envelope f items [] rs ≡ admitted kept rs'
      → All IsClear rs'
  unfolding admit
  admit-IsClear none [] kept rs rs' c h = subst (All IsClear) {x = rs} (ground arith) c
  admit-IsClear none (item ∷ items) kept rs rs' c h = absurd (ground arith)
  admit-IsClear (some f) items kept rs rs' c h =
      (admit-IsAdmission envelope f items [] kept rs rs' h).clear c

  -- With any evaluators, a gated turn that returns either withholds, with a blocking final verdict
  -- and its instruction for output, or releases: the model answered, the output evaluator did not
  -- block its text, the output is that text or the instruction of a transforming verdict, and no
  -- receipt is of a blocking verdict.
  pub gated_turn-Outcome :
      {g : IdentityKernelGateResult}
      → (run_identity_kernel_gated_turn input).result ≡ some g
      → Outcome g
  unfolding run_identity_kernel_gated_turn is_blocking withhold receipt
  gated_turn-Outcome {g} h = elim (Bool-cases (blocks (kernel.evaluate_prompt envelope).verdict)) [
    | inl b ↦
        transfer_some Outcome (rw b at h)
          (inl (record { unreleased = refl; blocked = b; instructed = refl }))
    | inr b ↦
        after_context-Outcome _ b
          (λ g' e. admit_stopped-IsWithheld envelope kernel.evaluate_context input.context [] _ e)
          (λ kept rs e. admit-IsClear kernel.evaluate_context input.context kept _ rs (b, tt) e)
          (rw b at h)
  ]
