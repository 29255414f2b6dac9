-- ===== src/Passport/Execution.antt =====
-- When the transaction of an updated document may be executed.
use bankr_integration.Prelude.{
  ◌≡◌, ◌≢◌, refl, sym, ap, ◌∙◌, subst, arith, ℕ, Bool, true, false, Option, some, if◌then◌else◌,
  Bool-cases, inl, inr,
}
use bankr_integration.Js.Text.{Text, ◌===◌, ===_sound}
use bankr_integration.Js.Json.{Fields}
use bankr_integration.Js.Host.{Host}
use bankr_integration.Approval.Usage.{Outcome, returned}
use bankr_integration.Passport.Update.{
  ReadOnlyGrantInput, ReadOnlyGrantResult, built, refused, build_read_only_grant_document,
}
use bankr_integration.Passport.Plan.{
  PlanStatus, blocked_missing_signer, blocked_signer_not_owner, blocked_invalid_document,
  blocked_invalid_address, execution_allowed, is_ready, grant_update_execution_guard, Chain, Plan,
  blocked, encode, signed, data_json_uri, normalize_address, plan_signer, plan_result,
  plan_addresses, summarize_grant_update_plan,
}

true_neq_false : true ≢ false
true_neq_false h = ground arith

-- The guard lets through a plan that is ready, when it is asked for and acknowledged.
guard-allowed :
    (status : PlanStatus) (requested acknowledged : Bool)
    → grant_update_execution_guard status requested acknowledged ≡ execution_allowed
    → (is_ready status ≡ true) × (requested ≡ true) × (acknowledged ≡ true)
unfolding grant_update_execution_guard
guard-allowed status requested acknowledged h = ground arith

status_of : {p q : Plan} → returned p ≡ returned q → is_ready p.status ≡ is_ready q.status
status_of h = cc

module _ (host : Host) (chain : Chain) where
  blocked-unready :
      (s : PlanStatus) (plan : Plan)
      → is_ready s ≡ false
      → blocked s ≡ returned plan
      → is_ready plan.status ≡ true
      → ⊥
  unfolding blocked
  blocked-unready s plan n h r = true_neq_false (sym r ∙ sym (status_of h) ∙ n)

  -- A ready plan has one known address for the owner and the signer.
  abbrev pub IsOneAddress : Option Text → Option Text → Type 0
  IsOneAddress owner signer = (w : Text) × (owner ≡ some w) × (signer ≡ some w)

  plan_signer-IsOneAddress :
      (n : ℕ) (id : Text) (registry owner signer : Option Text) (document : Fields) (plan : Plan)
      → plan_signer host chain n id registry owner signer document ≡ returned plan
      → is_ready plan.status ≡ true
      → IsOneAddress owner signer
  unfolding plan_signer is_ready
  plan_signer-IsOneAddress n id registry (some o) (some s) document plan h r =
      elim (Bool-cases (o === s)) [
        | inl e ↦ (s, ap some (===_sound o s e), refl)
        | inr e ↦ absurd (
            blocked-unready blocked_signer_not_owner plan refl
              (subst
                (λ b.
                  (if b
                    then signed host chain n registry
                        (encode host chain registry id (data_json_uri host chain document))
                    else blocked blocked_signer_not_owner)
                  ≡ returned plan)
                e h)
              r)
      ]
  plan_signer-IsOneAddress n id registry owner signer document plan h r =
      absurd (blocked-unready blocked_missing_signer plan refl h r)

  -- The plan of addresses that were read has a document that was built.
  abbrev pub IsBacked : ReadOnlyGrantInput → Outcome (Option Text) → Outcome (Option Text) → Type 0
  IsBacked input owner signer =
      ((w : Text) × (owner ≡ returned (some w)) × (signer ≡ returned (some w)))
      × ((document : Fields) × (before after : Text) × (build_read_only_grant_document host input
            ≡ built document before after))

  plan_result-IsBacked :
      (n : ℕ) (id : Text) (registry owner signer : Option Text) (r : ReadOnlyGrantResult)
      (plan : Plan)
      → plan_result host chain n id registry owner signer r ≡ returned plan
      → is_ready plan.status ≡ true
      → IsOneAddress owner signer
        × ((document : Fields) × (before after : Text) × (r ≡ built document before after))
  unfolding plan_result is_ready
  plan_result-IsBacked n id registry owner signer (built d b a) plan h r =
      (plan_signer-IsOneAddress n id registry owner signer d plan h r, (d, b, a, refl))
  plan_result-IsBacked n id registry owner signer (refused x i b) plan h r =
      absurd (blocked-unready blocked_invalid_document plan refl h r)

  plan_addresses-IsBacked :
      (n : ℕ) (input : ReadOnlyGrantInput) (registry owner signer : Outcome (Option Text))
      (plan : Plan)
      → plan_addresses host chain n input registry owner signer ≡ returned plan
      → is_ready plan.status ≡ true
      → IsBacked input owner signer
  unfolding plan_addresses is_ready
  plan_addresses-IsBacked n input (returned g) (returned o) (returned s) plan h r =
      let ((w, ow, sw), backed) = plan_result-IsBacked n input.passport_id g o s _ plan h r in
      ((w, ap returned ow, ap returned sw), backed)
  plan_addresses-IsBacked n input registry owner signer plan h r =
      absurd (blocked-unready blocked_invalid_address plan refl h r)

  -- The guard lets the transaction of a plan be executed only if it was asked for and acknowledged,
  -- the owner and the signer are normalised to one and the same address, and the document was
  -- built.
  pub summarize-guard :
      (n : ℕ) (registry : Text) (owner signer : Option Text) (input : ReadOnlyGrantInput)
      (plan : Plan) (requested acknowledged : Bool)
      → summarize_grant_update_plan host chain n registry owner signer input ≡ returned plan
      → grant_update_execution_guard plan.status requested acknowledged ≡ execution_allowed
      → (requested ≡ true)
        × (acknowledged ≡ true)
        × IsBacked input (normalize_address host chain owner) (normalize_address host chain signer)
  unfolding summarize_grant_update_plan
  summarize-guard n registry owner signer input plan requested acknowledged h g =
      let (r, q, a) = guard-allowed plan.status requested acknowledged g in
      (q, a, plan_addresses-IsBacked n input _ _ _ plan h r)
