-- ===== src/Gate/Kernel.antt =====
-- The gated turn run with the evaluators of packages/identity-kernel/src/index.ts.
use bankr_integration.Prelude.{
  ◌≡◌, refl, inl, inr, true, false, some, arith, Bool-cases, All, All-map, ◌⊎◌, if◌then◌else◌, sym,
  ◌∙◌, transfer_some,
}
use bankr_integration.Js.Text.{Text, txt}
use bankr_integration.Js.Json.{obj, end, or_else, stringify}
use bankr_integration.Js.Host.{Host}
use bankr_integration.Kernel.Types.{
  IdentityEnvelope, ToolCallRequest, ContextEvaluationRequest, OutputEvaluationRequest, blocks,
}
use bankr_integration.Kernel.Patterns.{attacks_identity, attacks_context, is_harmful}
use bankr_integration.Kernel.Authority.{with_receipt}
use bankr_integration.Kernel.Evaluate.{
  plain_body, context_body, output_body, prompt_body, refused_prompt, downgraded_prompt,
  allowed_prompt, evaluate_prompt, evaluate_context, evaluate_tool_call, evaluate_output,
}
use bankr_integration.Kernel.Tools.{Covers, evaluate_tool_call-allow_iff, evaluate_tool_call_grants}
use bankr_integration.Gate.Turn.{
  GateInput, IdentityKernelRuntime, IdentityKernelGateResult, ModelInput, ModelResult, Event, asked,
  ran, is_transform, run_identity_kernel_gated_turn,
}
use bankr_integration.Gate.Events.{IsShown, IsPermitted, gated_turn-IsPermitted}
use bankr_integration.Gate.Release.{IsRelease, gated_turn-Outcome}

-- The text that the kernel releases in place of a harmful draft.
abbrev pub withheld_output : Text
withheld_output =
    txt
      "Answer at high-level; do not provide operational harm steps, secret extraction steps, or executable exfiltration instructions."

module _ (host : Host) where
  -- `{ evaluatePrompt, evaluateContext, evaluateToolCall, evaluateOutput }`.
  abbrev pub identity_kernel : IdentityKernelRuntime
  identity_kernel = record {
    evaluate_prompt = evaluate_prompt host;
    evaluate_context = some (evaluate_context host);
    evaluate_tool_call = some (evaluate_tool_call host);
    evaluate_output = some (evaluate_output host);
  }

  blocks-prompt :
      (e : IdentityEnvelope)
      → blocks (evaluate_prompt host e).verdict ≡ attacks_identity e.user_request
  unfolding evaluate_prompt with_receipt prompt_body refused_prompt downgraded_prompt allowed_prompt
  blocks-prompt e = ground arith

  transform-context :
      (e : IdentityEnvelope) (c : ContextEvaluationRequest)
      → is_transform (evaluate_context host e c).verdict ≡ attacks_context c.text
  unfolding evaluate_context with_receipt context_body plain_body
  transform-context e c = ground arith

  cleared-tool :
      (e : IdentityEnvelope) (c : ToolCallRequest)
      → blocks (evaluate_tool_call host e c).verdict ≡ false
      → Covers e.authority_scope c.name
        × (is_harmful (stringify host (or_else c.args (obj end))) ≡ false)
  cleared-tool e c b =
      (evaluate_tool_call-allow_iff host e c).0 (ground (arith, evaluate_tool_call_grants host e c))

  released-output :
      (e : IdentityEnvelope) (text : Text)
      → let v = evaluate_output host e (record { draft_output = text }) in
        ((is_harmful text ≡ false)
          × ((if is_transform v.verdict then v.safe_instruction else text) ≡ text))
        ⊎ ((is_harmful text ≡ true)
            × ((if is_transform v.verdict then v.safe_instruction else text) ≡ withheld_output))
  unfolding evaluate_output with_receipt output_body plain_body
  released-output e text = elim (Bool-cases (is_harmful text)) [
    | inl h ↦ rw h (inr (refl, refl))
    | inr h ↦ rw h (inl (refl, refl))
  ]

module _ (host : Host) (input : GateInput) where
  open input use {envelope}

  -- The turn with the kernel's evaluators, whatever the context, the model and the tools.
  abbrev pub secured : GateInput
  secured = record input { kernel = identity_kernel host }

  -- What the kernel's own evaluators add to `IsPermitted`.
  abbrev pub IsSafeEvent : Event → Type 0
  IsSafeEvent (asked i) =
      (attacks_identity envelope.user_request ≡ false)
      × (i.user_request ≡ envelope.user_request)
      × All (λ (c : ContextEvaluationRequest). attacks_context c.text ≡ false) i.context
  IsSafeEvent (ran call) =
      Covers envelope.authority_scope call.name
      × (is_harmful (stringify host (or_else call.args (obj end))) ≡ false)

  IsShown-fair : (c : ContextEvaluationRequest) → IsShown secured c → attacks_context c.text ≡ false
  IsShown-fair c (f, e, b, t) =
      let shown = transfer_some (λ g. is_transform (g envelope c).verdict ≡ false) (sym e) t in
      sym (transform-context host envelope c) ∙ shown

  IsPermitted-IsSafeEvent : (v : Event) → IsPermitted secured v → IsSafeEvent v
  IsPermitted-IsSafeEvent (asked i) (b, r, shown) = (
    sym (blocks-prompt host envelope) ∙ b,
    r,
    All-map (IsShown secured) _ i.context IsShown-fair shown,
  )
  IsPermitted-IsSafeEvent (ran call) (f, e, b, d) =
      cleared-tool host envelope call
        (transfer_some (λ g. blocks (g envelope call).verdict ≡ false) (sym e) b)

  -- Under the kernel's own evaluators, a gated turn calls the model only for a request with no
  -- identity-attack pattern and with context that holds none of the context patterns, and runs a
  -- tool only if the authority scope covers it and its serialised arguments hold no harmful
  -- pattern.
  pub gated_turn-IsSafeEvent : All IsSafeEvent (run_identity_kernel_gated_turn secured).events
  gated_turn-IsSafeEvent =
      All-map (IsPermitted secured) IsSafeEvent _ IsPermitted-IsSafeEvent
        (gated_turn-IsPermitted secured)

  kernel-output :
      {g : IdentityKernelGateResult} (r : IsRelease secured g)
      → ((is_harmful r.answer.text ≡ false) × (g.output ≡ r.answer.text))
        ⊎ ((is_harmful r.answer.text ≡ true) × (g.output ≡ withheld_output))
  kernel-output {g} r =
      let draft : OutputEvaluationRequest = record { draft_output = r.answer.text } in
      let final =
        transfer_some (λ f. g.final_verdict ≡ f envelope draft) (sym r.evaluates) r.final in
      let text = rw final at r.text in
      elim (released-output host envelope r.answer.text) [
        | inl (h, q) ↦ inl (h, text ∙ q)
        | inr (h, q) ↦ inr (h, text ∙ q)
      ]

  -- Under the kernel's own evaluators, a gated turn that returns a released output comes from a
  -- request with no identity-attack pattern, and the output is an answer of the model where that
  -- answer holds no harmful pattern, and the fixed safe instruction where it holds one.
  pub gated_turn_released :
      {g : IdentityKernelGateResult}
      → (run_identity_kernel_gated_turn secured).result ≡ some g
      → g.released ≡ true
      → (attacks_identity envelope.user_request ≡ false)
        × (i : ModelInput) × (m : ModelResult) × (input.model i ≡ some m)
        × (((is_harmful m.text ≡ false) × (g.output ≡ m.text))
            ⊎ ((is_harmful m.text ≡ true) × (g.output ≡ withheld_output)))
  gated_turn_released {g} h released = elim (gated_turn-Outcome secured h) [
    | inl w ↦ absurd (ground (arith, w.unreleased))
    | inr (_, r) ↦ (
      sym (blocks-prompt host envelope) ∙ r.prompt_unblocked,
      r.asked_input,
      r.answer,
      r.answered,
      kernel-output r,
    )
  ]
