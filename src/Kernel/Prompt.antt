-- ===== src/Kernel/Prompt.antt =====
-- What the identity kernel grants to a prompt (`evaluatePrompt`).
use mathlib.Core.List.{Perm}
use mathlib.Core.List.Perm
use bankr_integration.Prelude.{
  ◌≡◌, refl, ◌↔◌, inl, inr, Bool, true, false, not, List, [], ◌∷◌, ◌++◌, arith, Bool-cases, All,
  All-filter, filter, length, ltb, filter-not-perm,
}
use bankr_integration.Js.Text.{Text}
use bankr_integration.Js.Host.{Host}
use bankr_integration.Kernel.Types.{refuse, IdentityEnvelope, VerdictBody, allow}
use bankr_integration.Kernel.Patterns.{attacks_identity}
use bankr_integration.Kernel.Authority.{tool_permission_from_scope, with_receipt, or_none}
use bankr_integration.Kernel.Evaluate.{
  refused_prompt, downgraded_prompt, allowed_prompt, prompt_body, evaluate_prompt,
}

-- Each requested tool is granted or denied, as often as it is requested, and only a tool that the
-- scope permits is granted.
abbrev pub Accounts : IdentityEnvelope → VerdictBody → Type 0
Accounts e v =
    Perm (v.tool_grants ++ v.tool_denials) (or_none e.requested_tools)
    × All (λ t. tool_permission_from_scope e.authority_scope t ≡ true) v.tool_grants

prompt_body-Accounts : (e : IdentityEnvelope) → Accounts e (prompt_body e)
unfolding prompt_body refused_prompt downgraded_prompt allowed_prompt
prompt_body-Accounts e =
    let permits = tool_permission_from_scope e.authority_scope in
    let requested = or_none e.requested_tools in
    elim (Bool-cases (attacks_identity e.user_request)) [
      | inl attack ↦ rw (attack, prompt_body) (Perm.refl requested, tt)
      | inr fair ↦ elim (Bool-cases (ltb 0 (length (filter (λ t. not (permits t)) requested)))) [
        | inl some_denied ↦
            rw (fair, some_denied, prompt_body)
              (filter-not-perm permits requested, All-filter permits requested)
        | inr all_granted ↦
            rw (fair, all_granted, prompt_body)
              (filter-not-perm permits requested, All-filter permits requested)
      ]
    ]

none_denied :
    (p : Text → Bool) (xs : List Text)
    → (ltb 0 (length (filter (λ t. not (p t)) xs)) ≡ false) ↔ All (λ t. p t ≡ true) xs
none_denied p [] = (λ _. tt, λ _. refl)
none_denied p (x ∷ xs) = ground (arith, none_denied p xs)

module _ (host : Host) where
  -- On every branch of evaluatePrompt the tools that the prompt requests are, up to order, those
  -- granted and those denied together, and each granted one is inside the authority scope.
  pub evaluate_prompt-Accounts : (e : IdentityEnvelope) → Accounts e (evaluate_prompt host e).body
  unfolding evaluate_prompt with_receipt
  evaluate_prompt-Accounts e = prompt_body-Accounts e

  -- A prompt is allowed exactly when it matches no identity-attack pattern and every tool that it
  -- requests is inside the authority scope.
  pub evaluate_prompt-allow_iff :
      (e : IdentityEnvelope)
      → ((evaluate_prompt host e).verdict ≡ allow) ↔ (
          (attacks_identity e.user_request ≡ false)
          × All
              (λ t. tool_permission_from_scope e.authority_scope t ≡ true)
              (or_none e.requested_tools))
  unfolding evaluate_prompt with_receipt prompt_body refused_prompt downgraded_prompt allowed_prompt
  evaluate_prompt-allow_iff e = ground (
    arith,
    none_denied (tool_permission_from_scope e.authority_scope) (or_none e.requested_tools),
  )

  -- A prompt is refused exactly when it matches an identity-attack pattern.
  evaluate_prompt-refuse_iff :
      (e : IdentityEnvelope)
      → ((evaluate_prompt host e).verdict ≡ refuse) ↔ (attacks_identity e.user_request ≡ true)
  unfolding evaluate_prompt with_receipt prompt_body refused_prompt downgraded_prompt allowed_prompt
  evaluate_prompt-refuse_iff e = ground arith
