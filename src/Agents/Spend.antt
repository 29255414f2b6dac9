-- ===== src/Agents/Spend.antt =====
-- The capabilities that must be live before an agent may spend on its own.
use bankr_integration.Prelude.{Bool, true, false, not, List, [], ◌∷◌, ◌++◌, map, filter}
use bankr_integration.Js.Text.{Text, txt, includes, join}
use bankr_integration.Approval.Usage.{Outcome, returned, threw}

pub data ClaimLevel : Type 0 where
  conceptual containment_scaffold capability_module hosted_service : ClaimLevel

pub record Capability : Type 0 where
  pub canon : Text
  pub name : Text
  pub claim : ClaimLevel

unfoldable pub is_hosted : Capability → Bool
is_hosted c = elim c.claim [ hosted_service ↦ true | _ ↦ false ]

-- `SPEND_GATING_CAPABILITIES`
abbrev pub spend_gating_capabilities : List Text
spend_gating_capabilities = txt "CANON-01v2-0003" ∷ txt "CANON-01v2-0005" ∷ []

-- The gating capabilities that are not live.
unfoldable pub missing_capabilities : List Capability → List Text
unfolding is_hosted
missing_capabilities live =
    filter (λ id. not (includes (map (λ (c : Capability). c.canon) (filter is_hosted live)) id))
      spend_gating_capabilities

unfoldable pub refuse_missing : List Text → Outcome (Unit {0})
refuse_missing [] = returned tt
refuse_missing (id ∷ ids) = threw (
    txt "Autonomous spend blocked: missing live gating capabilities " ++ join (txt ", ") (id ∷ ids))

-- `assertAutonomousSpendAllowed`
unfoldable pub assert_autonomous_spend_allowed : List Capability → Outcome (Unit {0})
assert_autonomous_spend_allowed live = refuse_missing (missing_capabilities live)
