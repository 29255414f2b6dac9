-- ===== src/Mcp/Approved.antt =====
-- Checking a stored approval against a call (`validateApprovedOperationCommon` and the three
-- validators of approved operations).
use bankr_integration.Prelude.{Bool, true, false, not, ◌&&◌, ◌||◌, Option, none, some, ◌++◌}
use bankr_integration.Js.Text.{Text, txt, ◌===◌, lower, trim, is_empty}
use bankr_integration.Js.Number.{Number, is_finite, num_eq, num_lt, finite, pos}
use bankr_integration.Js.Pattern.{test_whole, hex_prefixed, plus, is_hex}
use bankr_integration.Js.Json.{Json, bool, str, Fields, get, put, clean, to_number}
use bankr_integration.Js.Host.{Host}
use bankr_integration.Approval.Types.{
  ApprovedOperation, ContractOperation, ValueMovement, AssetExchange,
}
use bankr_integration.Mcp.Session.{BaseMcpSession}
use bankr_integration.Mcp.Args.{
  Checked, accepted, ◌>>=◌, ◌>>◌, reject_if, normalized_address, amount,
}

abbrev pub zero_number : Number
zero_number = finite (pos 0)

-- `n === null || n <= 0`, of a number that is finite.
unfoldable pub not_positive : Option Number → Bool
not_positive none = true
not_positive (some n) = not (num_lt zero_number n)

-- `!!date && Date.now() > Date.parse(date)`
unfoldable pub is_past : Host → Number → Option Text → Bool
is_past host now none = false
is_past host now (some t) = not (is_empty t) && num_lt (host.parse_date t) now

unfoldable pub is_calldata : Text → Bool
is_calldata s = test_whole (hex_prefixed (plus is_hex)) s

module _ (host : Host) (now : Number) where
  -- Returns the chain id of the request.
  unfoldable pub validate_approved_operation_common :
      ApprovedOperation → Fields → BaseMcpSession → Text → Checked Number
  validate_approved_operation_common a args session kind =
      let approval_id = clean host (get (txt "approval_id") args) in
      let human_approval = clean host (get (txt "human_approval_receipt") args) in
      let chain_id = to_number host (get (txt "chain_id") args) in
      do
        reject_if (is_empty approval_id) (txt "approval_id required for governed " ++ kind)
        reject_if (is_empty human_approval)
            (txt "human approval receipt required for governed " ++ kind)
        reject_if (not (is_finite chain_id)) (txt "chain_id required for governed " ++ kind)
        reject_if (is_empty (trim a.approval_hash) || is_empty (trim a.nonce))
            (txt "approval record must include sealed approval_hash and nonce")
        reject_if (not (a.approval_id === approval_id))
            (txt "approval_id does not match approval record")
        reject_if (not (a.passport_id === session.passport.passport_id))
            (txt "approval passport_id does not match resolved passport")
        reject_if (not (num_eq a.chain_id chain_id))
            (txt "approval chain_id does not match request")
        reject_if (not (lower (trim a.human_approval_receipt) === lower (trim human_approval)))
            (txt "human approval receipt does not match approval record")
        reject_if (is_past host now a.expires_at) (txt "approval record expired")
        accepted chain_id

  -- `approval.transaction.value ?? approval.value ?? "0"`
  unfoldable pub sealed_value : ContractOperation → Json
  sealed_value c = elim c.transaction.value [
    | some v ↦ str v
    | none ↦ elim c.value [ some v ↦ v | none ↦ str (txt "0") ]
  ]

  -- The validators return the arguments with the approval's own values put in.
  unfoldable pub validate_approved_contract_operation :
      ApprovedOperation → ContractOperation → Fields → BaseMcpSession → Checked Fields
  validate_approved_contract_operation a c args session = do
    chain_id ← validate_approved_operation_common a args session (txt "contract operation")
    reject_if (not (num_eq c.transaction.chain_id chain_id))
        (txt "approval chain_id does not match request")
    let contract = normalized_address host (str c.contract)
    reject_if (is_empty contract) (txt "approval contract must be a 0x-prefixed EVM address")
    reject_if (not (normalized_address host (str c.transaction.to) === contract))
        (txt "approval transaction target must match approved contract")
    reject_if (not (is_calldata (trim c.transaction.calldata)))
        (txt "approval transaction data must be sealed hex calldata")
    accepted (
        put (txt "value") (sealed_value c) (
          put (txt "calldata_hash") (str (trim c.calldata_hash))
            (put (txt "method") (str (trim c.method)) (put (txt "contract") (str contract) args))))

  unfoldable pub validate_approved_value_movement :
      ApprovedOperation → ValueMovement → Fields → BaseMcpSession → Checked Fields
  validate_approved_value_movement a m args session = do
    chain_id ← validate_approved_operation_common a args session (txt "value movement")
    let recipient = normalized_address host (str m.recipient)
    reject_if (is_empty recipient) (txt "approval recipient must be a 0x-prefixed EVM address")
    let token = normalized_address host (str m.token_address)
    reject_if (is_empty token) (txt "approval asset must be a 0x-prefixed EVM address")
    reject_if (not_positive (amount host (str m.amount))) (txt "approval amount must be positive")
    accepted (
        put (txt "is_native_token") (bool m.is_native_token) (
          put (txt "amount") (str m.amount)
            (put (txt "token_address") (str token) (put (txt "recipient") (str recipient) args))))

  unfoldable pub validate_approved_asset_exchange :
      ApprovedOperation → AssetExchange → Fields → BaseMcpSession → Checked Fields
  validate_approved_asset_exchange a x args session = do
    chain_id ← validate_approved_operation_common a args session (txt "asset exchange")
    let from_token = normalized_address host (str x.from_token)
    let to_token = normalized_address host (str x.to_token)
    reject_if (is_empty from_token || is_empty to_token)
        (txt "approval assets must be 0x-prefixed EVM addresses")
    reject_if (not_positive (amount host (str x.amount))) (txt "approval amount must be positive")
    reject_if (not_positive (amount host (str x.min_buy_amount)))
        (txt "approval min_buy_amount must be positive")
    accepted (
        put (txt "min_buy_amount") (str x.min_buy_amount) (
          put (txt "amount") (str x.amount)
            (put (txt "to_token") (str to_token) (put (txt "from_token") (str from_token) args))))
