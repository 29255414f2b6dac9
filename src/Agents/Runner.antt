-- ===== src/Agents/Runner.antt =====
-- The agent of one wallet: the file with its data, provisioning, prompts and the request to spend. A
-- prompt's execution is an argument, and may fail.
use bankr_integration.Prelude.{
  ℕ, ◌+◌, Bool, true, false, Option, none, some, List, [], ◌∷◌, if◌then◌else◌, take,
}
use bankr_integration.Js.Text.{Text, txt, lower}
use bankr_integration.Js.Pattern.{test_whole, hex_prefixed, times, one, is_lower_hex}
use bankr_integration.Approval.Usage.{Outcome, returned, threw}
use bankr_integration.Agents.Spend.{
  Capability, containment_scaffold, capability_module, hosted_service,
  assert_autonomous_spend_allowed,
}

pub record Meta : Type 0 where
  pub created_at : Text
  pub prompts : Option ℕ
  pub last_prompt_at : Option Text

-- The file of an agent: not there, not readable as JSON, or its data.
pub data MetaFile : Type 0 where
  absent corrupt : MetaFile
  holds : Meta → MetaFile

pub record AgentStatus : Type 0 where
  pub provisioned : Bool
  pub created_at : Option Text
  pub prompts : Option ℕ
  pub last_prompt_at : Option Text

unfoldable pub is_wallet : Text → Bool
is_wallet wallet = test_whole (hex_prefixed (times 40 (one is_lower_hex))) (lower wallet)

-- `agentStatus`, of a wallet that is one.
unfoldable pub agent_status : MetaFile → AgentStatus
agent_status absent = record {
  provisioned = false;
  created_at = none;
  prompts = none;
  last_prompt_at = none;
}
agent_status corrupt = record {
  provisioned = true;
  created_at = none;
  prompts = none;
  last_prompt_at = none;
}
agent_status (holds m) = record {
  provisioned = true;
  created_at = some m.created_at;
  prompts = m.prompts;
  last_prompt_at = m.last_prompt_at;
}

-- `provisionAgent`: an agent that is there stays as it is.
unfoldable pub provision_agent : Text → MetaFile → MetaFile
provision_agent now absent =
    holds (record { created_at = now; prompts = some 0; last_prompt_at = none })
provision_agent now file = file

-- `destroyAgent`
abbrev pub destroy_agent : MetaFile → MetaFile
destroy_agent file = absent

or_zero : Option ℕ → ℕ
or_zero none = 0
or_zero (some n) = n

-- A prompt that was answered is counted, where the file can be read and written.
unfoldable pub count_prompt : Bool → Text → MetaFile → MetaFile
unfolding or_zero
count_prompt written now (holds m) =
    if written
    then holds (record m { prompts = some (or_zero m.prompts + 1); last_prompt_at = some now })
    else holds m
count_prompt written now file = file

unfoldable pub after_exec : Bool → Text → MetaFile → Outcome Text → Outcome Text × MetaFile
after_exec written now file (returned reply) = (returned reply, count_prompt written now file)
after_exec written now file (threw e) = (threw e, file)

-- `promptAgent`: its reply and the file after it; the flag is whether the counters can be written.
unfoldable pub prompt_agent :
    (Text → Outcome Text) → Bool → Text → Text → MetaFile → Outcome Text × MetaFile
prompt_agent exec written now prompt absent = (threw (txt "agent not provisioned"), absent)
prompt_agent exec written now prompt file = after_exec written now file (exec (take 4000 prompt))

-- `liveCapabilities`
abbrev pub live_capabilities : List Capability
live_capabilities =
    record {
      canon = txt "CANON-01v2-0001";
      name = txt "Agent Passport / authenticated memory precedence";
      claim = hosted_service;
    }
    ∷ record {
      canon = txt "CANON-01v2-0006";
      name = txt "Local Liveness Gate";
      claim = containment_scaffold;
    }
    ∷ record {
      canon = txt "CANON-01v2-0007";
      name = txt "Observation Receipts / Workshop governance evaluator";
      claim = capability_module;
    }
    ∷ []

after_assert : Outcome (Unit {0}) → Outcome (Unit {0})
after_assert (threw e) = threw e
after_assert (returned _) = threw (txt "unreachable")

-- `requestAutonomousSpend`
unfoldable pub request_autonomous_spend : Text → ℕ → Outcome (Unit {0})
unfolding after_assert
request_autonomous_spend wallet amount_usd =
    if is_wallet wallet
    then after_assert (assert_autonomous_spend_allowed live_capabilities)
    else threw (txt "invalid wallet")
