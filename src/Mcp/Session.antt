-- ===== src/Mcp/Session.antt =====
-- Passports, capability grants and the envelope of a tool call (`envelopeFor`).
use bankr_integration.Prelude.{Bool, Option, none, some, List, [], ◌∷◌, ◌++◌, map, if◌then◌else◌}
use bankr_integration.Js.Text.{Text, txt, includes}
use bankr_integration.Js.Number.{Number}
use bankr_integration.Js.Json.{Json}
use bankr_integration.Kernel.Types.{IdentityEnvelope}

pub record CapabilityGrant : Type 0 where
  pub capability : Text
  pub chain_id : Option Number
  pub allowed_recipients : Option (List Text)
  pub allowed_assets : Option (List Text)
  pub allowed_contracts : Option (List Text)
  pub allowed_methods : Option (List Text)
  -- A string or a number.
  pub max_per_call : Option Json
  pub max_per_day : Option Json
  pub requires_human : Option Bool
  pub expires_at : Option Text
  pub policy_hash : Option Text

pub record BaseMcpPassport : Type 0 where
  pub agent_id : Text
  pub passport_id : Text
  pub agent_wallet : Option Text
  pub active_system_prompt_hash : Text
  pub authority_scope : List Text
  pub risk_context : Option Text
  pub capability_grants : Option (List CapabilityGrant)

pub record BaseMcpSession : Type 0 where
  pub wallet : Text
  pub passport : BaseMcpPassport

unfoldable pub grants_of : BaseMcpSession → List CapabilityGrant
grants_of s = elim s.passport.capability_grants [ none ↦ [] | some gs ↦ gs ]

-- `Array.from(new Set(xs))`, with those seen so far.
unfoldable pub distinct : List Text → List Text → List Text
distinct seen [] = []
distinct seen (x ∷ xs) = if includes seen x then distinct seen xs else x ∷ distinct (x ∷ seen) xs

unfoldable pub envelope_for : BaseMcpSession → Text → IdentityEnvelope
envelope_for s user_request = record {
  agent_id = s.passport.agent_id;
  passport_id = s.passport.passport_id;
  user_request = user_request;
  active_system_prompt_hash = s.passport.active_system_prompt_hash;
  authority_scope =
      distinct []
        (s.passport.authority_scope ++ map (λ (g : CapabilityGrant). g.capability) (grants_of s));
  requested_tools = some [];
  memory_refs = none;
  risk_context = elim s.passport.risk_context [ none ↦ txt "tool_execution" | some r ↦ r ];
}
