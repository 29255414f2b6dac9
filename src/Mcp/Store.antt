-- ===== src/Mcp/Store.antt =====
-- The interface `BaseMcpApprovalStore` of services/gateway/src/mcp-base.ts over a state of the store,
-- and the file-backed store of services/gateway/src/bankr-approval-store.ts as an implementation.
use bankr_integration.Prelude.{false, Option, none, some, List, [], ◌∷◌, ◌>>=◌}
use bankr_integration.Js.Text.{Text}
use bankr_integration.Js.Number.{Number}
use bankr_integration.Js.Json.{Json}
use bankr_integration.Js.Host.{Host}
use bankr_integration.Approval.Types.{
  ApprovedOperation, ContractOperation, ValueMovement, AssetExchange, contract_operation,
  value_movement, asset_exchange, ApprovalReservation, ApprovalLookup, ApprovalStoreOptions,
}
use bankr_integration.Approval.Lookup.{
  get_approved_contract_operation, get_approved_value_movement, get_approved_asset_exchange,
}
use bankr_integration.Approval.Usage.{
  Outcome, Usage, Faults, ReserveReply, reserve, release, consume,
}

-- An approval with its body at the type that its kind has.
pub record Approved (B : Type 0) : Type 0 where
  pub approval : ApprovedOperation
  pub body : B

-- The optional methods may be missing, which the gateway tests for.
pub record ApprovalStore (S : Type 0) : Type 0 where
  pub get_contract : ApprovalLookup → S → Option (Approved ContractOperation)
  pub get_movement : Option (ApprovalLookup → S → Option (Approved ValueMovement))
  pub get_exchange : Option (ApprovalLookup → S → Option (Approved AssetExchange))
  pub reserve : Option (ApprovedOperation → Text → S → Outcome ReserveReply × S)
  pub release : Option (ApprovalReservation → Text → Json → S → Outcome (Unit {0}) × S)
  pub consume : Option (ApprovalReservation → Json → S → Outcome (Unit {0}) × S)

abbrev pub as_contract : ApprovedOperation → Option (Approved ContractOperation)
as_contract a = elim a.operation [
  | contract_operation c ↦ some (record { approval = a; body = c })
  | _ ↦ none
]

abbrev pub as_movement : ApprovedOperation → Option (Approved ValueMovement)
as_movement a = elim a.operation [
  | value_movement m ↦ some (record { approval = a; body = m })
  | _ ↦ none
]

abbrev pub as_exchange : ApprovedOperation → Option (Approved AssetExchange)
as_exchange a = elim a.operation [
  | asset_exchange x ↦ some (record { approval = a; body = x })
  | _ ↦ none
]

-- The state of the file-backed store during one tool call: the usage files, and the file operations
-- that are to fail in each of its coming calls (none of them when the list ends).
pub record FileState : Type 0 where
  pub usage : Usage
  pub script : List Faults

abbrev pub no_faults : Faults
no_faults = record {
  mkdir_reserved = false;
  mkdir_consumed = false;
  create_reserved = false;
  unlink_reserved = false;
  rename = false;
  rewrite_consumed = false;
  create_consumed = false;
  append_audit = false;
  message = [];
}

abbrev pub next_fault : List Faults → Faults
next_fault [] = no_faults
next_fault (f ∷ fs) = f

abbrev pub later_faults : List Faults → List Faults
later_faults [] = []
later_faults (f ∷ fs) = fs

-- One call of an operation on the files.
unfoldable pub on_files {ℓ} :
    {A : Type ℓ} → (Faults → Usage → Outcome A × Usage) → FileState → Outcome A × FileState
on_files act s =
    let (o, u) = act (next_fault s.script) s.usage in
    (o, record { usage = u; script = later_faults s.script })

module _ (host : Host) (opts : ApprovalStoreOptions) (file : Option Json) (now : Number) where
  -- `createFileBackedBankrApprovalStore`, with the contents of the approvals file.
  abbrev pub file_backed : ApprovalStore FileState
  file_backed = record {
    get_contract =
        λ input s. get_approved_contract_operation host opts file input now >>= as_contract;
    get_movement =
        some (λ input s. get_approved_value_movement host opts file input now >>= as_movement);
    get_exchange =
        some (λ input s. get_approved_asset_exchange host opts file input now >>= as_exchange);
    reserve =
        some (λ a receipt_hash s. on_files (λ f u. reserve host opts f now a receipt_hash u) s);
    release =
        some (λ r reason result s. on_files (λ f u. release host opts f now r reason result u) s);
    consume = some (λ r result s. on_files (λ f u. consume host opts f now r result u) s);
  }
