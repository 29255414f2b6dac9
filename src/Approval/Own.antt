-- ===== src/Approval/Own.antt =====
-- What an object of the approvals file gives the operation that is read from it (`parseApproval`).
use bankr_integration.Prelude.{
  ◌≡◌, refl, inl, inr, Bool, Option, none, some, arith, Bool-cases, >>=-eq-some, >>-eq-some,
  transfer_some,
}
use bankr_integration.Js.Text.{Text, txt, ◌===◌, ===_sound, lower}
use bankr_integration.Js.Number.{Number, num_eq, num_eq_sound}
use bankr_integration.Js.Json.{Json, undefined, num, str, obj, Fields, get}
use bankr_integration.Js.Host.{Host}
use bankr_integration.Approval.Types.{
  ApprovedHeader, ApprovedOperation, ContractOperation, OperationBody, contract_operation,
  value_movement, asset_exchange, ApprovalStoreOptions,
}
use bankr_integration.Approval.Canonical.{
  has_kind, canonical_approval_hash, signature_scheme_for, as_text,
}
use bankr_integration.Approval.Parse.{
  as_record, is_hex_data, text_with, address, nonblank, as_number, as_bool, optional_text,
  optional_amount, seal, parse_value_movement, parse_asset_exchange, parse_contract_operation,
  parse_operation,
}

-- The transaction of a contract operation runs on the approved chain and calls the approved contract.
abbrev pub IsAimed : Number → OperationBody → Type 0
IsAimed chain_id (contract_operation c) =
    (c.transaction.chain_id ≡ chain_id) × (lower c.transaction.to ≡ lower c.contract)
IsAimed chain_id (value_movement m) = Unit
IsAimed chain_id (asset_exchange x) = Unit

-- A text that is given as itself, or not given as undefined.
abbrev pub IsGiven : Json → Option Text → Type 0
IsGiven v none = v ≡ undefined
IsGiven v (some s) = v ≡ str s

-- The object has the chain, target, calldata and value of the operation's transaction.
abbrev pub IsOwnTransaction : Fields → ContractOperation → Type 0
IsOwnTransaction t c =
    (get (txt "chainId") t ≡ num c.transaction.chain_id)
    × (get (txt "to") t ≡ str c.transaction.to)
    × (get (txt "data") t ≡ str c.transaction.calldata)
    × IsGiven (get (txt "value") t) c.transaction.value

-- The transaction of an operation is the object under `transaction` of the item; the operations of the other kinds have none.
abbrev pub IsOwn : Fields → Option Fields → OperationBody → Type 0
IsOwn item tx (contract_operation c) =
    (t : Fields) × (tx ≡ some t) × (get (txt "transaction") item ≡ obj t) × IsOwnTransaction t c
IsOwn item tx (value_movement m) = tx ≡ none
IsOwn item tx (asset_exchange x) = tx ≡ none

pub as_record-obj : (v : Json) {fs : Fields} → as_record v ≡ some fs → v ≡ obj fs
unfolding as_record
as_record-obj (obj fs) h = cc
as_record-obj _ h = cc

text_with-str : (test : Text → Bool) (v : Json) {s : Text} → text_with test v ≡ some s → v ≡ str s
unfolding text_with
text_with-str test (str s) h = ground arith
text_with-str test _ h = cc

as_number-num : (v : Json) {n : Number} → as_number v ≡ some n → v ≡ num n
unfolding as_number
as_number-num (num n) h = cc
as_number-num _ h = cc

optional_text-IsGiven :
    (v : Json) (value : Option Text) → optional_text v ≡ some value → IsGiven v value
unfolding optional_text
optional_text-IsGiven undefined value h = transfer_some (IsGiven undefined) h refl
optional_text-IsGiven (str s) value h = transfer_some (IsGiven (str s)) h refl
optional_text-IsGiven _ value h = cc

-- An operation that an item gives for a chain, with the transaction that its hash is over.
abbrev IsRead : Fields → Option Fields → Number → OperationBody → Type 0
IsRead item tx n op = IsOwn item tx op × IsAimed n op

module _ (host : Host) (opts : ApprovalStoreOptions) where
  movement-IsRead :
      (item : Fields) (n : Number) {op : OperationBody}
      → parse_value_movement host opts item ≡ some op
      → IsRead item none n op
  unfolding parse_value_movement
  movement-IsRead item n h =
      let (_, _, h) = >>=-eq-some (address (get (txt "recipient") item)) _ h in
      let (_, _, h) = >>=-eq-some (address (get (txt "token_address") item)) _ h in
      let (_, _, h) = >>=-eq-some (nonblank (get (txt "amount") item)) _ h in
      let (_, _, h) = >>=-eq-some (as_bool (get (txt "is_native_token") item)) _ h in
      transfer_some (IsRead item none n) h (refl, tt)

  exchange-IsRead :
      (item : Fields) (n : Number) {op : OperationBody}
      → parse_asset_exchange host opts item ≡ some op
      → IsRead item none n op
  unfolding parse_asset_exchange
  exchange-IsRead item n h =
      let (_, _, h) = >>=-eq-some (address (get (txt "from_token") item)) _ h in
      let (_, _, h) = >>=-eq-some (address (get (txt "to_token") item)) _ h in
      let (_, _, h) = >>=-eq-some (nonblank (get (txt "amount") item)) _ h in
      let (_, _, h) = >>=-eq-some (nonblank (get (txt "min_buy_amount") item)) _ h in
      transfer_some (IsRead item none n) h (refl, tt)

  contract-IsRead :
      (item tx : Fields) (n : Number) {op : OperationBody}
      → as_record (get (txt "transaction") item) ≡ some tx
      → parse_contract_operation host opts item tx n ≡ some op
      → IsRead item (some tx) n op
  unfolding parse_contract_operation
  contract-IsRead item tx n own h =
      let (contract, _, h) = >>=-eq-some (address (get (txt "contract") item)) _ h in
      let (_, _, h) = >>=-eq-some (nonblank (get (txt "method") item)) _ h in
      let (_, _, h) = >>=-eq-some (nonblank (get (txt "calldata_hash") item)) _ h in
      let (tx_chain, on, h) = >>=-eq-some (as_number (get (txt "chainId") tx)) _ h in
      let (chain, h) = >>-eq-some (num_eq tx_chain n) _ h in
      let (to, at, h) = >>=-eq-some (address (get (txt "to") tx)) _ h in
      let (target, h) = >>-eq-some (lower to === lower contract) _ h in
      let (_, data_of, h) = >>=-eq-some (text_with is_hex_data (get (txt "data") tx)) _ h in
      let (value, given, h) = >>=-eq-some (optional_text (get (txt "value") tx)) _ h in
      let (_, _, h) = >>=-eq-some (optional_amount (get (txt "value") item)) _ h in
      transfer_some (IsRead item (some tx) n) h (
        (
          tx,
          refl,
          as_record-obj _ own,
          (
            as_number-num _ on,
            text_with-str _ _ at,
            text_with-str _ _ data_of,
            optional_text-IsGiven _ _ given,
          ),
        ),
        (num_eq_sound tx_chain n chain, ===_sound _ _ target),
      )

  -- The approval's hash is over the item with its own transaction, its scheme is what the signature
  -- check gave for that hash, its signature is the item's and its transaction is on its chain.
  abbrev pub Reads : Fields → ApprovedOperation → Type 0
  Reads item a =
      (tx : Option Fields) × IsOwn item tx a.operation
      × (a.approval_hash ≡ canonical_approval_hash host item tx)
      × (signature_scheme_for host item a.approval_hash opts ≡ some a.signature_scheme)
      × (a.signature ≡ as_text (get (txt "signature") item))
      × IsAimed a.chain_id a.operation

  seal-Reads :
      (item : Fields) (tx : Option Fields) (op : OperationBody) (c : ApprovedHeader)
      {a : ApprovedOperation}
      → seal host opts item tx op c ≡ some a
      → IsRead item tx c.chain_id op
      → Reads item a
  unfolding seal
  seal-Reads item tx op c {a} h (own, aimed) =
      let (same, h') = >>-eq-some (c.approval_hash === canonical_approval_hash host item tx) _ h in
      let (scheme, found, made) =
        >>=-eq-some (signature_scheme_for host item (canonical_approval_hash host item tx) opts) _
          h' in
      let hash = ===_sound _ _ same in
      transfer_some (Reads item) made (tx, own, hash, rw hash found, refl, aimed)

  pub parse_operation-Reads :
      (item : Fields) (c : ApprovedHeader) {a : ApprovedOperation}
      → parse_operation host opts item c ≡ some a
      → Reads item a
  unfolding parse_operation
  parse_operation-Reads item c h = elim (Bool-cases (has_kind item (txt "value_movement"))) [
    | inl movement ↦
        let (op, p, s) = >>=-eq-some (parse_value_movement host opts item) _ (rw movement at h) in
        seal-Reads item none op c s (movement-IsRead item c.chain_id p)
    | inr other ↦ elim (Bool-cases (has_kind item (txt "asset_exchange"))) [
      | inl exchange ↦
          let (op, p, s) =
            >>=-eq-some (parse_asset_exchange host opts item) _ (rw (other, exchange) at h) in
          seal-Reads item none op c s (exchange-IsRead item c.chain_id p)
      | inr contract ↦
          let (tx, own, h) =
            >>=-eq-some (as_record (get (txt "transaction") item)) _ (rw (other, contract) at h) in
          let (op, p, s) =
            >>=-eq-some (parse_contract_operation host opts item tx c.chain_id) _ h in
          seal-Reads item (some tx) op c s (contract-IsRead item tx c.chain_id own p)
    ]
  ]
