-- ===== src/Mcp/Raw.antt =====
-- Governed calls take nothing but the approval's id from the model: the refusal of raw fields.
use bankr_integration.Prelude.{
  ◌≡◌, ◌≢◌, refl, sym, ap, arith, Bool, true, false, not, ◌||◌, Option, some, List, [], Bool-cases,
  inl, inr,
}
use bankr_integration.Js.Text.{Text, ◌===◌, is_empty}
use bankr_integration.Js.Number.{Number}
use bankr_integration.Js.Json.{Fields}
use bankr_integration.Js.Host.{Host}
use bankr_integration.Kernel.Types.{IdentityEnvelope}
use bankr_integration.Approval.Types.{ApprovedOperation}
use bankr_integration.Approval.Usage.{returned}
use bankr_integration.Mcp.Tools.{
  BaseMcpTool, execute_approved_value_movement, execute_approved_asset_exchange,
  execute_approved_contract_operation,
}
use bankr_integration.Mcp.Session.{BaseMcpSession}
use bankr_integration.Mcp.Args.{
  Checked, accepted, rejected, reject_if, ◌>>◌, has_any, raw_transaction_keys,
  raw_value_movement_keys, raw_asset_exchange_keys,
}
use bankr_integration.Mcp.Store.{ApprovalStore}
use bankr_integration.Mcp.Resolve.{
  Resolved, resolve_approved, resolve_approved_value_movement, resolve_approved_asset_exchange,
  resolve_approved_contract_operation,
}
use bankr_integration.Mcp.Verdict.{Reply, is_ok}
use bankr_integration.Mcp.Execution.{Runtime, CallEnd}
use bankr_integration.Mcp.Call.{refuse_with, effective, passport_arg, call_tool}

-- The fields that a governed tool does not take from its arguments.
abbrev pub raw_keys : BaseMcpTool → List Text
raw_keys execute_approved_value_movement = raw_value_movement_keys
raw_keys execute_approved_asset_exchange = raw_asset_exchange_keys
raw_keys execute_approved_contract_operation = raw_transaction_keys
raw_keys t = []

-- The call refuses, executes nothing and leaves the store as it was.
abbrev pub Refuses : (S : Type 0) → CallEnd S → S → Type 0
Refuses S end s =
    (r : Reply) × (end.reply ≡ returned r)
    × (is_ok r ≡ false)
    × (end.store ≡ s)
    × (end.executed ≡ [])

true_neq_false : true ≢ false
true_neq_false h = ground arith

refused :
    {B : Type 0} (b : Bool) (reason : Text) (k : Checked B)
    → b ≡ true
    → (reject_if b reason >> k) ≡ rejected reason
refused true reason k h = refl
refused false reason k h = absurd (true_neq_false (sym h))

abbrev continue : Checked Resolved → Checked (Fields × Option ApprovedOperation)
continue (rejected reason) = rejected reason
continue (accepted r) = accepted (r.effective_args, some r.approval)

module _ (S : Type 0) (host : Host) (now : Number) (runtime : Runtime)
    (store : Option (ApprovalStore S)) where
  effective_raw :
      (t : BaseMcpTool) (args : Fields) (session : BaseMcpSession) (s : S)
      → has_any (raw_keys t) args ≡ true
      → (reason : Text) × (effective S host now runtime store t args session s ≡ rejected reason)
  unfolding effective resolve_approved resolve_approved_value_movement
      resolve_approved_asset_exchange resolve_approved_contract_operation has_any
  effective_raw execute_approved_value_movement args session s h =
      (_, ap continue (refused _ _ _ h))
  effective_raw execute_approved_asset_exchange args session s h =
      (_, ap continue (refused _ _ _ h))
  effective_raw execute_approved_contract_operation args session s h =
      (_, ap continue (refused _ _ _ h))
  effective_raw t args session s h = absurd (true_neq_false (sym h))

  -- A governed call whose arguments hold one of the raw fields of its tool is answered with a reply
  -- that is not ok, executes nothing and leaves the store's state as it was, whatever the store,
  -- the session and the runtime are.
  pub call_tool-Refuses :
      (e : IdentityEnvelope) (session : BaseMcpSession) (t : BaseMcpTool) (args : Fields) (s : S)
      → has_any (raw_keys t) args ≡ true
      → Refuses S (call_tool S host now runtime store e session t args s) s
  unfolding call_tool refuse_with is_ok
  call_tool-Refuses e session t args s h =
      elim (Bool-cases (
        is_empty (passport_arg args) || not (passport_arg args === session.passport.passport_id))) [
          | inl p ↦ rw p (_, refl, refl, refl, refl)
          | inr p ↦
              let (reason, f) = effective_raw t args session s h in
              rw p (rw f (_, refl, refl, refl, refl))
        ]
