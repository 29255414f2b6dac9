-- ===== src/Gate/Context.antt =====
-- The context that a gated turn admits, and what every early return has in common.
use mathlib.Core.List.{append-nil, append_assoc}
use bankr_integration.Prelude.{
  ◌≡◌, refl, subst, ◌∙◌, inl, inr, Bool, true, false, not, Option, none, some, List, [], ◌∷◌, ◌++◌,
  arith, Bool-cases, All, All-append, filter,
}
use bankr_integration.Js.Text.{txt}
use bankr_integration.Kernel.Types.{
  IdentityEnvelope, IdentityVerdict, Receipt, ContextEvaluationRequest, blocks, is_blocking,
}
use bankr_integration.Gate.Turn.{
  IdentityKernelGateResult, receipt, missing_evaluator, withhold, is_transform, stopped, admitted,
  admit_item, admit,
}

-- Nothing is released: the output is the instruction of the blocking verdict that ends the turn.
pub record IsWithheld (g : IdentityKernelGateResult) : Type 0 where
  pub unreleased : g.released ≡ false
  pub blocked : blocks g.final_verdict.verdict ≡ true
  pub instructed : g.output ≡ g.final_verdict.safe_instruction

pub withhold-IsWithheld :
    (v : IdentityVerdict) (rs : List Receipt)
    → blocks v.verdict ≡ true
    → IsWithheld (withhold v rs [])
unfolding withhold
withhold-IsWithheld v rs h = record { unreleased = refl; blocked = h; instructed = refl }

-- A receipt of a verdict that does not block.
abbrev pub IsClear : Receipt → Type 0
IsClear r = blocks r.verdict ≡ false

module _ (e : IdentityEnvelope)
    (f : IdentityEnvelope → ContextEvaluationRequest → IdentityVerdict) where
  abbrev pub keeps : ContextEvaluationRequest → Bool
  keeps item = not (is_transform (f e item).verdict)

  -- What the loop returns when it comes to its end.
  pub record IsAdmission (items kept kept' : List ContextEvaluationRequest)
      (receipts receipts' : List Receipt) : Type 0 where
    pub kept_items : kept' ≡ kept ++ filter keeps items
    pub unblocked : All (λ item. blocks (f e item).verdict ≡ false) items
    pub clear : All IsClear receipts → All IsClear receipts'

  admit_item-filter :
      (item : ContextEvaluationRequest) (items kept : List ContextEvaluationRequest)
      → admit_item e kept item (f e item) ++ filter keeps items
        ≡ kept ++ filter keeps (item ∷ items)
  unfolding admit_item
  admit_item-filter item items kept = elim (Bool-cases (is_transform (f e item).verdict)) [
    | inl t ↦ rw t refl
    | inr t ↦ rw t (append_assoc kept (item ∷ []) (filter keeps items))
  ]

  pub admit-IsAdmission :
      (items kept kept' : List ContextEvaluationRequest) (rs rs' : List Receipt)
      → admit e (some f) items kept rs ≡ admitted kept' rs'
      → IsAdmission items kept kept' rs rs'
  unfolding admit is_blocking receipt
  admit-IsAdmission [] kept kept' rs rs' h = record {
    kept_items = rw append-nil (ground arith);
    unblocked = tt;
    clear = λ c. subst (All IsClear) (ground arith) c;
  }
  admit-IsAdmission (item ∷ items) kept kept' rs rs' h =
      elim (Bool-cases (blocks (f e item).verdict)) [
        | inl b ↦ absurd (ground arith)
        | inr b ↦
            let r = receipt (txt "context") e (f e item) in
            let tail =
              admit-IsAdmission items (admit_item e kept item (f e item)) kept' (rs ++ r ∷ []) rs'
                (rw b at h) in
            record {
              kept_items = tail.kept_items ∙ admit_item-filter item items kept;
              unblocked = (b, tail.unblocked);
              clear = λ c. tail.clear (All-append IsClear rs (r ∷ []) c (b, tt));
            }
      ]

pub admit_stopped-IsWithheld :
    (e : IdentityEnvelope)
    (f : Option (IdentityEnvelope → ContextEvaluationRequest → IdentityVerdict))
    (items kept : List ContextEvaluationRequest) (rs : List Receipt) {g : IdentityKernelGateResult}
    → admit e f items kept rs ≡ stopped g
    → IsWithheld g
unfolding admit is_blocking withhold missing_evaluator
admit_stopped-IsWithheld e f [] kept rs h = cc
admit_stopped-IsWithheld e none (item ∷ items) kept rs h = ground arith
admit_stopped-IsWithheld e (some f) (item ∷ items) kept rs {g} h =
    elim (Bool-cases (blocks (f e item).verdict)) [
      | inl b ↦ ground arith
      | inr b ↦ admit_stopped-IsWithheld e (some f) items _ _ (rw b at h)
    ]
