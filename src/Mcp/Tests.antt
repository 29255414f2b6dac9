-- ===== src/Mcp/Tests.antt =====
-- Calls of the gateway at fixed inputs, and its theorems at them.
use bankr_integration.Prelude.{◌≡◌, refl, true, false, none, some, List, [], ◌∷◌, All}
use bankr_integration.Js.Text.{Text, txt, ◌===◌, includes, lower, trim, is_empty, is_space}
use bankr_integration.Js.Number.{finite, pos, is_finite, num_eq, num_lt}
use bankr_integration.Js.Pattern.{test_whole, hex_prefixed, times, is_hex, is_lower_hex}
use bankr_integration.Js.Json.{
  Json, bool, num, str, obj, Fields, end, field, get, has, put, clean, or_else, text_of, to_number,
}
use bankr_integration.Js.Host.{Host}
use bankr_integration.Fixtures.{asker, stamp_host, options, parsed, unused}
use bankr_integration.Kernel.Types.{allow}
use bankr_integration.Approval.Types.{ContractOperation, ValueMovement, AssetExchange}
use bankr_integration.Approval.Usage.{
  returned, audit_event, key_of, approval_key, reservation_of, reserve, release, consume,
}
use bankr_integration.Approval.Canonical.{reservation_key}
use bankr_integration.Approval.Replay.{taken, grant_count, is_granted, Call, reserves}
use bankr_integration.Mcp.Tools.{
  capability, pay_x402_invoice, execute_approved_contract_operation,
  execute_approved_value_movement,
}
use bankr_integration.Mcp.Session.{CapabilityGrant, BaseMcpSession}
use bankr_integration.Mcp.Args.{
  accepted, has_any, raw_value_movement_keys, lower_value, normalized_address, amount,
}
use bankr_integration.Mcp.Approved.{
  not_positive, is_past, is_calldata, sealed_value, validate_approved_operation_common,
  validate_approved_contract_operation, validate_approved_value_movement,
  validate_approved_asset_exchange,
}
use bankr_integration.Mcp.Grant.{
  is_outside, is_above, max_of, lower_trimmed, tool_policy, is_other_chain, granted_for,
  check_grant, find_grant,
}
use bankr_integration.Mcp.Policy.{IsCoveredBy, find_grant-IsCoveredBy}
use bankr_integration.Mcp.Store.{FileState, on_files, no_faults}
use bankr_integration.Mcp.Execution.{ExecutionInput, Runtime, lifecycle_of, runtime_accepted}
use bankr_integration.Mcp.Call.{
  execute_allowed_tool, handed, after_consumption, after_result, settle, after_reserve,
  run_governed, call_tool, call_base_mcp_tool,
}
use bankr_integration.Mcp.Authorised.{IsAuthorised, call-IsAuthorised}
use bankr_integration.Mcp.Lifecycle.{is_done, WasConsumed, run_governed-WasConsumed}
use bankr_integration.Mcp.Files.{
  files, files_lifecycle, failing, done_is_final, failed_consumption-granted_again,
}
use bankr_integration.Mcp.Raw.{Refuses, call_tool-Refuses}
use bankr_integration.Mcp.Binding.{
  IsFor, validate_approved_value_movement-IsFor, validate_approved_contract_operation-IsFor,
}

-- A host that reads every text as the number 5.
abbrev pub five_host : Host
five_host = record stamp_host { parse_number = λ s. finite (pos 5) }

abbrev pub home : Text
home = txt "0xabababababababababababababababababababab"

abbrev paying : CapabilityGrant
paying = record {
  capability = txt "base.x402.pay";
  chain_id = none;
  allowed_recipients = some (home ∷ []);
  allowed_assets = none;
  allowed_contracts = none;
  allowed_methods = none;
  max_per_call = some (str (txt "5"));
  max_per_day = none;
  requires_human = none;
  expires_at = none;
  policy_hash = none;
}

abbrev pub invoice : Fields
invoice =
    field (txt "passport_id") (str (txt "7"))
      (field (txt "recipient") (str home) (field (txt "amount") (str (txt "5")) end))

abbrev pub visitor : BaseMcpSession
visitor = record {
  wallet = home;
  passport = record {
    agent_id = txt "leonardo";
    passport_id = txt "7";
    agent_wallet = none;
    active_system_prompt_hash = txt "h";
    authority_scope = [];
    risk_context = none;
    capability_grants = some (paying ∷ []);
  };
}

call_runs : Unit {0}
unfolding txt ◌===◌ lower trim is_empty is_space is_finite num_eq num_lt test_whole hex_prefixed
    times is_hex is_lower_hex get has put clean or_else text_of to_number lower_value
    normalized_address amount not_positive is_past is_calldata validate_approved_operation_common
    validate_approved_contract_operation validate_approved_value_movement
    validate_approved_asset_exchange is_outside is_above max_of lower_trimmed tool_policy
    is_other_chain granted_for check_grant find_grant capability includes has_any
    raw_value_movement_keys
call_runs = tt

invoice_granted :
    find_grant five_host (finite (pos 0)) pay_x402_invoice invoice (paying ∷ []) ≡ accepted paying
unfolding call_runs
invoice_granted = refl

find_grant-IsCoveredBy_example :
    IsCoveredBy five_host (finite (pos 0)) pay_x402_invoice invoice paying
find_grant-IsCoveredBy_example =
    find_grant-IsCoveredBy five_host (finite (pos 0)) pay_x402_invoice invoice (paying ∷ []) paying
      invoice_granted

abbrev pub pay : Runtime
pay t = some (λ input. returned (obj (field (txt "executed") (bool true) end)))

call-IsAuthorised_example :
    All
      (IsAuthorised five_host (finite (pos 0)) (txt "pay_x402_invoice") visitor)
      (call_base_mcp_tool
        (Unit {0})
        five_host
        (finite (pos 0))
        pay
        none
        (txt "pay_x402_invoice")
        invoice
        (some visitor)
        tt).executed
call-IsAuthorised_example =
    call-IsAuthorised (Unit {0}) five_host (finite (pos 0)) pay none (txt "pay_x402_invoice")
      visitor invoice tt

abbrev smuggled : Fields
smuggled = field (txt "amount") (str (txt "9")) end

smuggled_raw : has_any raw_value_movement_keys smuggled ≡ true
unfolding call_runs
smuggled_raw = refl

call_tool-Refuses_example :
    Refuses
      (Unit {0})
      (call_tool
        (Unit {0})
        five_host
        (finite (pos 0))
        pay
        none
        asker
        visitor
        execute_approved_value_movement
        smuggled
        tt)
      tt
call_tool-Refuses_example =
    call_tool-Refuses (Unit {0}) five_host (finite (pos 0)) pay none asker visitor
      execute_approved_value_movement smuggled tt smuggled_raw

abbrev pub governed : ExecutionInput
governed = record {
  tool = execute_approved_contract_operation;
  args = end;
  session = visitor;
  grant = paying;
  of_policy = record {
    stage = txt "tool";
    hash = txt "h";
    agent_id = txt "leonardo";
    passport_id = txt "7";
    verdict = allow;
    reason = [];
  };
  approved_operation = some parsed;
}

abbrev fresh : FileState
fresh = record { usage = unused; script = [] }

governed_runs : Unit {0}
unfolding txt ◌===◌ lower trim is_empty is_space get lifecycle_of on_files execute_allowed_tool
    runtime_accepted after_consumption after_result settle after_reserve run_governed reserve
    release consume audit_event key_of approval_key reservation_of reservation_key
governed_runs = tt

governed_done :
    is_done
      (run_governed FileState five_host pay asker
        (files five_host options none (finite (pos 0)) pay asker)
        parsed
        governed
        fresh).reply
    ≡ true
unfolding governed_runs
governed_done = refl

run_governed-WasConsumed_example :
    WasConsumed FileState five_host pay asker
      (files_lifecycle five_host options none (finite (pos 0)) pay asker)
      parsed
      governed
      fresh
unfolding lifecycle_of
run_governed-WasConsumed_example =
    run_governed-WasConsumed FileState five_host pay asker
      (files_lifecycle five_host options none (finite (pos 0)) pay asker) parsed governed fresh
      governed_done

abbrev again : List Call
again =
    record { operation = reserves parsed (txt "r"); fault = no_faults; now = finite (pos 1) } ∷ []

done_is_final_example :
    (taken unused (approval_key five_host parsed) ≡ false)
    × (grant_count five_host options
          (approval_key five_host parsed)
          (run_governed FileState five_host pay asker
            (files five_host options none (finite (pos 0)) pay asker)
            parsed
            governed
            fresh).store.usage
          again
        ≡ 0)
done_is_final_example =
    done_is_final five_host options none (finite (pos 0)) pay asker parsed governed fresh again
      governed_done

abbrev paid : Json
paid = obj (field (txt "executed") (bool true) end)

governed_ran : execute_allowed_tool FileState five_host pay asker governed ≡ returned paid
unfolding governed_runs
governed_ran = refl

paid_accepted : runtime_accepted paid ≡ true
unfolding governed_runs
paid_accepted = refl

failed_consumption-granted_again_example :
    let end =
      run_governed FileState five_host pay asker
        (files five_host options none (finite (pos 0)) pay asker)
        parsed
        governed
        (failing unused) in
    (end.executed ≡ handed FileState five_host pay asker governed)
    × (is_granted
          (reserve five_host options no_faults (finite (pos 0)) parsed (txt "r") end.store.usage).0
        ≡ true)
unfolding governed_runs
failed_consumption-granted_again_example =
    failed_consumption-granted_again five_host options none (finite (pos 0)) pay asker parsed
      governed unused paid (txt "r") {root = txt "usage"} refl refl governed_ran paid_accepted

abbrev pub asked_for : Fields
asked_for = field (txt "approval_id") (str (txt "a1")) (
    field (txt "chain_id") (num (finite (pos 8453)))
      (field (txt "human_approval_receipt") (str (txt " R ")) end))

abbrev pub sent : ValueMovement
sent = record { recipient = home; token_address = home; amount = txt "5"; is_native_token = false }

abbrev swapped : AssetExchange
swapped = record { from_token = home; to_token = home; amount = txt "5"; min_buy_amount = txt "5" }

abbrev minted : ContractOperation
minted = record {
  tagged = true;
  contract = home;
  method = txt " mint ";
  calldata_hash = txt "c";
  purpose = none;
  value = none;
  transaction = record {
    chain_id = finite (pos 8453);
    to = home;
    calldata = txt "0x01";
    value = none;
  };
}

abbrev pub sent_args : Fields
sent_args = put (txt "is_native_token") (bool false) (
    put (txt "amount") (str (txt "5"))
      (put (txt "token_address") (str home) (put (txt "recipient") (str home) asked_for)))

pub sent_valid :
    validate_approved_value_movement five_host (finite (pos 0)) parsed sent asked_for visitor
    ≡ accepted sent_args
unfolding call_runs
sent_valid = refl

validate_approved_value_movement-IsFor_example :
    IsFor five_host (finite (pos 0)) parsed asked_for visitor
    × (get (txt "recipient") sent_args ≡ str (normalized_address five_host (str home)))
    × (get (txt "token_address") sent_args ≡ str (normalized_address five_host (str home)))
    × (get (txt "amount") sent_args ≡ str (txt "5"))
    × (get (txt "is_native_token") sent_args ≡ bool false)
validate_approved_value_movement-IsFor_example =
    validate_approved_value_movement-IsFor five_host (finite (pos 0)) parsed sent asked_for
      sent_args visitor sent_valid

abbrev swapped_args : Fields
swapped_args = put (txt "min_buy_amount") (str (txt "5")) (
    put (txt "amount") (str (txt "5"))
      (put (txt "to_token") (str home) (put (txt "from_token") (str home) asked_for)))

swapped_valid :
    validate_approved_asset_exchange five_host (finite (pos 0)) parsed swapped asked_for visitor
    ≡ accepted swapped_args
unfolding call_runs
swapped_valid = refl

abbrev minted_args : Fields
minted_args = put (txt "value") (str (txt "0")) (
    put (txt "calldata_hash") (str (txt "c"))
      (put (txt "method") (str (txt "mint")) (put (txt "contract") (str home) asked_for)))

minted_valid :
    validate_approved_contract_operation five_host (finite (pos 0)) parsed minted asked_for visitor
    ≡ accepted minted_args
unfolding call_runs sealed_value
minted_valid = refl

validate_approved_contract_operation-IsFor_example :
    IsFor five_host (finite (pos 0)) parsed asked_for visitor
    × (normalized_address five_host (str home) ≡ normalized_address five_host (str home))
    × (get (txt "contract") minted_args ≡ str (normalized_address five_host (str home)))
    × (get (txt "method") minted_args ≡ str (trim (txt " mint ")))
    × (get (txt "calldata_hash") minted_args ≡ str (trim (txt "c")))
    × (get (txt "value") minted_args ≡ sealed_value five_host (finite (pos 0)) minted)
validate_approved_contract_operation-IsFor_example =
    validate_approved_contract_operation-IsFor five_host (finite (pos 0)) parsed minted asked_for
      minted_args visitor minted_valid
