-- ===== src/Approval/Parse.antt =====
-- Reading approvals from the store's file (`parseApproval`, `parseApprovals`).
use bankr_integration.Prelude.{
  Bool, true, false, Option, none, some, List, [], ◌∷◌, if◌then◌else◌, guard, ◌>>=◌, ◌>>◌,
}
use bankr_integration.Js.Text.{Text, txt, ◌===◌, lower, trim, is_empty}
use bankr_integration.Js.Number.{Number, is_finite, num_eq}
use bankr_integration.Js.Pattern.{test_whole, hex_prefixed, times, one, star, is_hex}
use bankr_integration.Js.Json.{
  Json, undefined, bool, num, str, arr, obj, Elems, nil, cons, Fields, get,
}
use bankr_integration.Js.Host.{Host}
use bankr_integration.Approval.Types.{
  ApprovedHeader, ApprovedOperation, OperationBody, contract_operation, value_movement,
  asset_exchange, ApprovalStoreOptions,
}
use bankr_integration.Approval.Canonical.{
  has_kind, canonical_approval_hash, signature_scheme_for, as_text,
}

unfoldable pub as_record : Json → Option Fields
as_record (obj fs) = some fs
as_record v = none

-- `/^0x[0-9a-fA-F]{40}$/.test(s)`
unfoldable pub is_address : Text → Bool
is_address s = test_whole (hex_prefixed (times 40 (one is_hex))) s

-- `/^0x[0-9a-fA-F]*$/.test(s)`
unfoldable pub is_hex_data : Text → Bool
is_hex_data s = test_whole (hex_prefixed (star is_hex)) s

-- A string that passes a test.
unfoldable pub text_with : (Text → Bool) → Json → Option Text
text_with test (str s) = if test s then some s else none
text_with test v = none

unfoldable pub has_text : Text → Bool
has_text s = if is_empty (trim s) then false else true

-- `typeof v === "string" && v.trim().length > 0`
abbrev pub nonblank : Json → Option Text
nonblank = text_with has_text

abbrev pub address : Json → Option Text
address = text_with is_address

unfoldable pub as_number : Json → Option Number
as_number (num n) = some n
as_number v = none

unfoldable pub as_bool : Json → Option Bool
as_bool (bool b) = some b
as_bool v = none

-- `v === undefined || typeof v === "string"`
unfoldable pub optional_text : Json → Option (Option Text)
optional_text undefined = some none
optional_text (str s) = some (some s)
optional_text v = none

-- `v === undefined || typeof v === "string" || typeof v === "number"`
unfoldable pub optional_amount : Json → Option (Option Json)
optional_amount undefined = some none
optional_amount (str s) = some (some (str s))
optional_amount (num n) = some (some (num n))
optional_amount v = none

module _ (host : Host) (opts : ApprovalStoreOptions) where
  -- What all kinds check after their own fields: the hash over the canonical text, and the signature.
  unfoldable pub seal :
      Fields → Option Fields → OperationBody → ApprovedHeader → Option ApprovedOperation
  seal item tx operation header = do
    guard (header.approval_hash === canonical_approval_hash host item tx)
    scheme ← signature_scheme_for host item (canonical_approval_hash host item tx) opts
    some (record {
      header = header;
      signature = as_text (get (txt "signature") item);
      signature_scheme = scheme;
      operation = operation;
    })

  -- `commonApprovalFields`, with the fields that it finds.
  unfoldable pub common_approval_fields : Fields → Option ApprovedHeader
  common_approval_fields item = do
    guard (elim (get (txt "status") item) [ str s ↦ s === txt "approved" | _ ↦ false ])
    approval_id ← nonblank (get (txt "approval_id") item)
    passport_id ← nonblank (get (txt "passport_id") item)
    chain_id ← as_number (get (txt "chain_id") item)
    guard (is_finite chain_id)
    human_approval_receipt ← nonblank (get (txt "human_approval_receipt") item)
    approval_hash ← nonblank (get (txt "approval_hash") item)
    nonce ← nonblank (get (txt "nonce") item)
    expires_at ← optional_text (get (txt "expires_at") item)
    some (record {
      approval_id = approval_id;
      passport_id = passport_id;
      chain_id = chain_id;
      human_approval_receipt = human_approval_receipt;
      approval_hash = approval_hash;
      nonce = nonce;
      expires_at = expires_at;
    })

  unfoldable pub parse_value_movement : Fields → Option OperationBody
  parse_value_movement item = do
    recipient ← address (get (txt "recipient") item)
    token_address ← address (get (txt "token_address") item)
    amount ← nonblank (get (txt "amount") item)
    is_native_token ← as_bool (get (txt "is_native_token") item)
    some (
        value_movement (record {
          recipient = lower recipient;
          token_address = lower token_address;
          amount = amount;
          is_native_token = is_native_token;
        }))

  unfoldable pub parse_asset_exchange : Fields → Option OperationBody
  parse_asset_exchange item = do
    from_token ← address (get (txt "from_token") item)
    to_token ← address (get (txt "to_token") item)
    amount ← nonblank (get (txt "amount") item)
    min_buy_amount ← nonblank (get (txt "min_buy_amount") item)
    some (
        asset_exchange (record {
          from_token = lower from_token;
          to_token = lower to_token;
          amount = amount;
          min_buy_amount = min_buy_amount;
        }))

  unfoldable pub parse_contract_operation : Fields → Fields → Number → Option OperationBody
  parse_contract_operation item tx chain_id = do
    contract ← address (get (txt "contract") item)
    method ← nonblank (get (txt "method") item)
    calldata_hash ← nonblank (get (txt "calldata_hash") item)
    tx_chain ← as_number (get (txt "chainId") tx)
    guard (num_eq tx_chain chain_id)
    to ← address (get (txt "to") tx)
    guard (lower to === lower contract)
    calldata ← text_with is_hex_data (get (txt "data") tx)
    tx_value ← optional_text (get (txt "value") tx)
    value ← optional_amount (get (txt "value") item)
    some (
        contract_operation (record {
          tagged = has_kind item (txt "contract_operation");
          contract = contract;
          method = method;
          calldata_hash = calldata_hash;
          purpose = as_text (get (txt "purpose") item);
          value = value;
          transaction = record {
            chain_id = tx_chain;
            to = to;
            calldata = calldata;
            value = tx_value;
          };
        }))

  -- `parseApproval` of an object with the common fields.
  unfoldable pub parse_operation : Fields → ApprovedHeader → Option ApprovedOperation
  parse_operation item header =
      if has_kind item (txt "value_movement")
      then parse_value_movement item >>= (λ body. seal item none body header)
      else if has_kind item (txt "asset_exchange")
      then parse_asset_exchange item >>= (λ body. seal item none body header)
      else (as_record (get (txt "transaction") item) >>= λ tx.
          parse_contract_operation item tx header.chain_id >>= λ body.
          seal item (some tx) body header)

  unfoldable pub parse_approval : Json → Option ApprovedOperation
  parse_approval value = do
    item ← as_record value
    header ← common_approval_fields item
    parse_operation item header

  unfoldable pub parse_elems : Elems → List ApprovedOperation
  parse_elems nil = []
  parse_elems (cons v vs) = elim (parse_approval v) [
    | some approval ↦ approval ∷ parse_elems vs
    | none ↦ parse_elems vs
  ]

  -- A list, or an object with the list under `approvals`.
  unfoldable pub parse_approvals : Json → List ApprovedOperation
  parse_approvals (arr xs) = parse_elems xs
  parse_approvals (obj fs) = elim (get (txt "approvals") fs) [ arr xs ↦ parse_elems xs | _ ↦ [] ]
  parse_approvals v = []
