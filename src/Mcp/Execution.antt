-- ===== src/Mcp/Execution.antt =====
-- The runtime of the gateway: what a tool is given, its result where no runtime is configured, which
-- results report an accepted execution, and how a call ends.
use bankr_integration.Prelude.{
  Bool, false, not, ◌&&◌, ◌||◌, Option, none, some, List, if◌then◌else◌, ◌>>=◌,
}
use bankr_integration.Js.Text.{Text, txt, is_empty, lower}
use bankr_integration.Js.Json.{Json, null, bool, num, str, obj, Fields, end, field, get, to_number}
use bankr_integration.Js.Host.{Host}
use bankr_integration.Kernel.Types.{Receipt}
use bankr_integration.Approval.Types.{ApprovedOperation, ApprovalReservation}
use bankr_integration.Approval.Usage.{Outcome, ReserveReply}
use bankr_integration.Mcp.Tools.{BaseMcpTool, read_wallet_state}
use bankr_integration.Mcp.Session.{CapabilityGrant, BaseMcpSession}
use bankr_integration.Mcp.Args.{lower_value}
use bankr_integration.Mcp.Store.{ApprovalStore}
use bankr_integration.Mcp.Verdict.{Reply}

pub record ExecutionInput : Type 0 where
  pub tool : BaseMcpTool
  pub args : Fields
  pub session : BaseMcpSession
  pub grant : CapabilityGrant
  pub of_policy : Receipt
  pub approved_operation : Option ApprovedOperation

-- The method of the runtime for each tool, if it has one. Its exceptions come with the message that
-- `errorMessage` makes of them.
abbrev pub Runtime : Type 0
Runtime = BaseMcpTool → Option (ExecutionInput → Outcome Json)

-- The result of a tool that has no runtime behind it.
unfoldable pub default_runtime_result : Host → BaseMcpTool → Fields → BaseMcpSession → Json
default_runtime_result host read_wallet_state args session = obj (
    field (txt "mode") (str (txt "policy_only")) (
      field (txt "wallet") (str (lower session.wallet)) (
        field (txt "agent_wallet")
          (let w = lower_value host (get (txt "agent_wallet") args) in
            if is_empty w then null else str w)
          (field (txt "chain_id") (num (to_number host (get (txt "chain_id") args))) (
            field (txt "note")
              (str (
                txt "No downstream wallet reader configured; Identity Kernel policy check passed."))
              end)))))
default_runtime_result host t args session = obj (
    field (txt "mode") (str (txt "policy_only")) (
      field (txt "executed") (bool false) (
        field (txt "note")
          (str (txt "Downstream Base execution is not configured in this beta route.")) end)))

-- `runtimeAccepted`
is_true : Json → Bool
is_true (bool b) = b
is_true v = false

is_false : Json → Bool
is_false (bool b) = not b
is_false v = false

unfoldable pub runtime_accepted : Json → Bool
unfolding is_true is_false
runtime_accepted (obj fs) =
    not (
      is_false (get (txt "executed") fs)
      || is_false (get (txt "accepted") fs)
      || is_false (get (txt "ok") fs))
    && (is_true (get (txt "executed") fs) || is_true (get (txt "accepted") fs))
runtime_accepted v = false

-- How a call ends: its reply or an exception, the state of the store, and what the runtime was given.
pub record CallEnd (S : Type 0) : Type 0 where
  pub reply : Outcome Reply
  pub store : S
  pub executed : List ExecutionInput

-- The three methods of the store that a governed call needs.
pub record Lifecycle (S : Type 0) : Type 0 where
  pub reserve : ApprovedOperation → Text → S → Outcome ReserveReply × S
  pub release : ApprovalReservation → Text → Json → S → Outcome (Unit {0}) × S
  pub consume : ApprovalReservation → Json → S → Outcome (Unit {0}) × S

-- `none` where one of them is missing.
unfoldable pub lifecycle_of : {S : Type 0} → Option (ApprovalStore S) → Option (Lifecycle S)
lifecycle_of none = none
lifecycle_of (some st) = do
  reserve ← st.reserve
  release ← st.release
  consume ← st.consume
  some (record { reserve = reserve; release = release; consume = consume })
