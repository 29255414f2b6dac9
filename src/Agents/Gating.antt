-- ===== src/Agents/Gating.antt =====
-- When an agent may spend, and what its status counts.
use bankr_integration.Prelude.{
  ◌≡◌, ◌↔◌, refl, ap, arith, ℕ, suc, ◌+◌, Bool, true, false, Option, none, some, List, [], ◌∷◌, map,
  filter, take, if◌then◌else◌,
}
use bankr_integration.Js.Text.{Text, txt, Listed, includes-Listed, Listed-includes}
use bankr_integration.Approval.Usage.{Outcome, returned, threw}
use bankr_integration.Agents.Spend.{
  Capability, is_hosted, missing_capabilities, refuse_missing, assert_autonomous_spend_allowed,
}
use bankr_integration.Agents.Runner.{
  MetaFile, absent, holds, agent_status, provision_agent, count_prompt, after_exec, prompt_agent,
}

-- The identifiers of the hosted capabilities.
abbrev pub hosted_ids : List Capability → List Text
hosted_ids live = map (λ (c : Capability). c.canon) (filter is_hosted live)

-- A capability is live as a hosted service.
abbrev pub IsLive : Text → List Capability → Type 0
IsLive id live = Listed id (hosted_ids live)

-- Autonomous spending is allowed, rather than refused with an error, exactly when both gating
-- capabilities are among the given ones with the claim of a hosted service.
pub assert_autonomous_spend_allowed_iff :
    (live : List Capability)
    → (assert_autonomous_spend_allowed live ≡ returned tt)
      ↔ (IsLive (txt "CANON-01v2-0003") live × IsLive (txt "CANON-01v2-0005") live)
unfolding assert_autonomous_spend_allowed missing_capabilities refuse_missing
assert_autonomous_spend_allowed_iff live = ground (
  arith,
  includes-Listed (txt "CANON-01v2-0003") (hosted_ids live),
  Listed-includes (txt "CANON-01v2-0003") (hosted_ids live),
  includes-Listed (txt "CANON-01v2-0005") (hosted_ids live),
  Listed-includes (txt "CANON-01v2-0005") (hosted_ids live),
)

-- Whether a prompt was answered.
unfoldable pub replied : Outcome Text → Bool
replied (returned _) = true
replied (threw _) = false

-- Prompts one after another, with counters that can be written.
unfoldable pub run_prompts : (Text → Outcome Text) → Text → List Text → MetaFile → MetaFile
run_prompts exec now [] file = file
run_prompts exec now (p ∷ ps) file = run_prompts exec now ps (prompt_agent exec true now p file).1

-- How many of the prompts are answered.
unfoldable pub answers : (Text → Outcome Text) → List Text → ℕ
unfolding replied
answers exec [] = 0
answers exec (p ∷ ps) =
    let rest = answers exec ps in if replied (exec (take 4000 p)) then suc rest else rest

module _ (exec : Text → Outcome Text) (now : Text) where
  -- What the status says of an agent that was provisioned at `at` and answered `n` prompts.
  abbrev IsCounted : Text → ℕ → MetaFile → Type 0
  IsCounted at n file =
      ((agent_status file).created_at ≡ some at) × ((agent_status file).prompts ≡ some n)

  -- The file of an agent that answered some prompts.
  abbrev answered : Text → ℕ → Option Text → MetaFile
  answered at k last = holds (record { created_at = at; prompts = some k; last_prompt_at = last })

  abbrev CountsFrom : Text → List Text → Type 0
  CountsFrom at ps =
      (k : ℕ) (last : Option Text) (n : ℕ)
      → n ≡ answers exec ps + k
      → IsCounted at n (run_prompts exec now ps (answered at k last))

  after_exec-CountsFrom :
      (at : Text) (ps : List Text)
      → CountsFrom at ps
      → (o : Outcome Text) (k : ℕ) (last : Option Text) (n : ℕ)
      → n ≡ (if replied o then suc (answers exec ps) else answers exec ps) + k
      → IsCounted at n (run_prompts exec now ps (after_exec true now (answered at k last) o).1)
  unfolding replied after_exec count_prompt
  after_exec-CountsFrom at ps ih (returned _) k last n e = ih (k + 1) (some now) n (omega arith)
  after_exec-CountsFrom at ps ih (threw _) k last n e = ih k last n e

  run_prompts-from : (at : Text) (ps : List Text) → CountsFrom at ps
  unfolding run_prompts answers agent_status prompt_agent
  run_prompts-from at [] k last n e = (refl, ap some (omega arith))
  run_prompts-from at (p ∷ ps) k last n e =
      after_exec-CountsFrom at ps (run_prompts-from at ps) (exec (take 4000 p)) k last n e

  -- After an agent that was not there is provisioned and a list of prompts is put to it one after
  -- another, where the counters can be written each time, its status has the time of its
  -- provisioning and counts exactly the prompts that were answered and not those whose execution
  -- threw.
  pub run_prompts-provision_agent :
      (at : Text) (ps : List Text)
      → IsCounted at (answers exec ps) (run_prompts exec now ps (provision_agent at absent))
  unfolding provision_agent
  run_prompts-provision_agent at ps = run_prompts-from at ps 0 none (answers exec ps) (omega arith)
