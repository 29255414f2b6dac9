-- ===== src/Bankr/Tests.antt =====
-- Governed calls of the adapter at fixed inputs.
use bankr_integration.Prelude.{◌≡◌, refl, true, false, none, some, [], ◌∷◌}
use bankr_integration.Js.Text.{txt}
use bankr_integration.Js.Number.{finite, pos}
use bankr_integration.Js.Json.{str}
use bankr_integration.Fixtures.{asker, options, stamp_host, parsed, unused}
use bankr_integration.Approval.Usage.{threw}
use bankr_integration.Mcp.Tools.{execute_approved_value_movement}
use bankr_integration.Mcp.Store.{FileState}
use bankr_integration.Mcp.Args.{normalized_address}
use bankr_integration.Mcp.Execution.{ExecutionInput}
use bankr_integration.Mcp.Call.{run_governed}
use bankr_integration.Mcp.Lifecycle.{is_done}
use bankr_integration.Mcp.Files.{files_lifecycle}
use bankr_integration.Mcp.Tests.{five_host, home, governed, asked_for, sent, sent_args, sent_valid}
use bankr_integration.Bankr.Http.{Web, Server}
use bankr_integration.Bankr.Adapter.{Adapter, transfer_body, post_request}
use bankr_integration.Bankr.Runtime.{bankr_runtime, sent_by}
use bankr_integration.Bankr.Submitted.{PostsFrom, submit_approved-sends}
use bankr_integration.Approval.Lookup.{get_approved_contract_operation}
use bankr_integration.Approval.Tests.{file, wanted, approval_found}
use bankr_integration.Bankr.Governed.{disabled_writes-not-done, move_value-sends}

abbrev web : Web
web = record { parse_url = λ s. none; encode_uri_component = λ s. s }

abbrev down : Server
down requests = threw (txt "down")

abbrev closed : Adapter
closed = record {
  api_key = txt "k";
  api_base_url = txt "https://api.bankr.bot";
  receipt_publish_path = none;
  x402_payment_path = none;
  governed_writes = false;
  x402_payments = false;
}

abbrev open_to_writes : Adapter
open_to_writes = record closed { governed_writes = true }

disabled_writes-not-done_example :
    (sent_by five_host web down closed governed ≡ [])
    × (is_done
          (run_governed FileState five_host
            (bankr_runtime five_host web down closed)
            asker
            (some (
              files_lifecycle five_host options none
                (finite (pos 0))
                (bankr_runtime five_host web down closed)
                asker))
            parsed
            governed
            (record { usage = unused; script = [] })).reply
        ≡ false)
disabled_writes-not-done_example =
    disabled_writes-not-done five_host web down closed FileState asker
      (files_lifecycle five_host options none (finite (pos 0))
        (bankr_runtime five_host web down closed) asker)
      parsed governed (record { usage = unused; script = [] }) refl refl

abbrev moving : ExecutionInput
moving = record governed { tool = execute_approved_value_movement; args = sent_args }

move_value-sends_example :
    sent_by five_host web down open_to_writes moving
    ≡ post_request five_host web down open_to_writes (txt "/wallet/transfer") (
        transfer_body
          (str (normalized_address five_host (str home)))
          (str (normalized_address five_host (str home)))
          (str (txt "5"))
          false)
      ∷ []
move_value-sends_example =
    move_value-sends five_host web down open_to_writes (finite (pos 0)) parsed sent asked_for moving
      refl refl sent_valid

found :
    get_approved_contract_operation stamp_host options file wanted (finite (pos 0)) ≡ some parsed
unfolding get_approved_contract_operation
found = approval_found

submit_approved-sends_example :
    PostsFrom stamp_host options web down open_to_writes file parsed
      (sent_by stamp_host web down open_to_writes governed)
submit_approved-sends_example =
    submit_approved-sends stamp_host options web down open_to_writes file wanted (finite (pos 0))
      parsed governed found refl refl refl
