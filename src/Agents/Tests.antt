-- ===== src/Agents/Tests.antt =====
-- A list of capabilities and an agent's prompts at fixed inputs.
use bankr_integration.Prelude.{◌≡◌, ◌↔◌, some, List, [], ◌∷◌, if◌then◌else◌}
use bankr_integration.Js.Text.{Text, txt, ◌===◌}
use bankr_integration.Approval.Usage.{Outcome, returned, threw}
use bankr_integration.Agents.Spend.{Capability, hosted_service, assert_autonomous_spend_allowed}
use bankr_integration.Agents.Runner.{absent, agent_status, provision_agent}
use bankr_integration.Agents.Gating.{
  IsLive, assert_autonomous_spend_allowed_iff, run_prompts, answers, run_prompts-provision_agent,
}

abbrev gateway_and_pledges : List Capability
gateway_and_pledges =
    record {
      canon = txt "CANON-01v2-0003";
      name = txt "Recognition Gateway";
      claim = hosted_service;
    }
    ∷ record { canon = txt "CANON-01v2-0005"; name = txt "PledgeGate"; claim = hosted_service }
    ∷ []

assert_autonomous_spend_allowed_iff_example :
    (assert_autonomous_spend_allowed gateway_and_pledges ≡ returned tt) ↔ (
      IsLive (txt "CANON-01v2-0003") gateway_and_pledges
      × IsLive (txt "CANON-01v2-0005") gateway_and_pledges)
assert_autonomous_spend_allowed_iff_example =
    assert_autonomous_spend_allowed_iff gateway_and_pledges

-- Two of the three prompts are answered.
abbrev toy_agent : Text → Outcome Text
toy_agent prompt =
    if prompt === txt "hang" then threw (txt "agent timed out") else returned (txt "done")

abbrev asked : List Text
asked = txt "summarise" ∷ txt "hang" ∷ txt "again" ∷ []

run_prompts-provision_agent_example :
    ((agent_status
        (run_prompts toy_agent (txt "2026") asked (provision_agent (txt "2025") absent))).created_at
      ≡ some (txt "2025"))
    × ((agent_status
          (run_prompts toy_agent (txt "2026") asked (provision_agent (txt "2025") absent))).prompts
        ≡ some 2)
unfolding answers ◌===◌ txt
run_prompts-provision_agent_example =
    run_prompts-provision_agent toy_agent (txt "2026") (txt "2025") asked
