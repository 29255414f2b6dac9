-- ===== src/Mcp/Binding.antt =====
-- What the validators of a stored approval bind: the call's passport, chain and receipt to the
-- approval's, and the arguments that go on to the approval's own values.
use bankr_integration.Prelude.{◌≡◌, refl, arith, Bool, true, false, not, ◌||◌}
use bankr_integration.Js.Text.{Text, txt, ◌===◌, ===_sound, lower, trim, is_empty}
use bankr_integration.Js.Number.{Number, is_finite, num_eq}
use bankr_integration.Js.Json.{bool, str, Fields, get, clean, to_number}
use bankr_integration.Js.Objects.{get-put, passes}
use bankr_integration.Js.Host.{Host}
use bankr_integration.Approval.Types.{
  ApprovedOperation, ContractOperation, ValueMovement, AssetExchange,
}
use bankr_integration.Mcp.Session.{BaseMcpSession}
use bankr_integration.Mcp.Args.{
  accepted, normalized_address, >>-accepted, >>=-accepted, transfer_accepted,
}
use bankr_integration.Mcp.Approved.{
  not_positive, is_past, is_calldata, sealed_value, validate_approved_operation_common,
  validate_approved_contract_operation, validate_approved_value_movement,
  validate_approved_asset_exchange,
}

not-false : (b : Bool) → not b ≡ false → b ≡ true
not-false b h = ground arith

module _ (host : Host) (now : Number) where
  -- The approval is for the call: its id, passport, chain and receipt, and it has not expired.
  abbrev pub IsFor : ApprovedOperation → Fields → BaseMcpSession → Type 0
  IsFor a args session =
      (a.approval_id ≡ clean host (get (txt "approval_id") args))
      × (a.passport_id ≡ session.passport.passport_id)
      × (num_eq a.chain_id (to_number host (get (txt "chain_id") args)) ≡ true)
      × (lower (trim a.human_approval_receipt)
          ≡ lower (trim (clean host (get (txt "human_approval_receipt") args))))
      × (is_past host now a.expires_at ≡ false)

  validate_approved_operation_common-IsFor :
      (a : ApprovedOperation) (args : Fields) (session : BaseMcpSession) (kind : Text) (n : Number)
      → validate_approved_operation_common host now a args session kind ≡ accepted n
      → IsFor a args session
  unfolding validate_approved_operation_common
  validate_approved_operation_common-IsFor a args session kind n h =
      let (_, h) = >>-accepted (is_empty _) _ _ h in
      let (_, h) = >>-accepted (is_empty _) _ _ h in
      let (_, h) = >>-accepted (not (is_finite _)) _ _ h in
      let (_, h) = >>-accepted (is_empty (trim a.approval_hash) || is_empty (trim a.nonce)) _ _ h in
      let (i, h) = >>-accepted (not (a.approval_id === _)) _ _ h in
      let (p, h) = >>-accepted (not (a.passport_id === _)) _ _ h in
      let (c, h) = >>-accepted (not (num_eq a.chain_id _)) _ _ h in
      let (r, h) = >>-accepted (not (lower (trim a.human_approval_receipt) === _)) _ _ h in
      let (x, h) = >>-accepted (is_past host now a.expires_at) _ _ h in
      (
        ===_sound _ _ (not-false _ i),
        ===_sound _ _ (not-false _ p),
        not-false _ c,
        ===_sound _ _ (not-false _ r),
        x,
      )

  -- When the validator of value movements accepts, the approval has the call's approval id,
  -- passport, chain and, up to letter case and blanks at the ends, its human receipt, and has not
  -- expired; the arguments that it returns carry the approval's recipient and asset, as normalised
  -- addresses, its amount and its native-token flag.
  pub validate_approved_value_movement-IsFor :
      (a : ApprovedOperation) (m : ValueMovement) (args args' : Fields) (session : BaseMcpSession)
      → validate_approved_value_movement host now a m args session ≡ accepted args'
      → IsFor a args session
        × (get (txt "recipient") args' ≡ str (normalized_address host (str m.recipient)))
        × (get (txt "token_address") args' ≡ str (normalized_address host (str m.token_address)))
        × (get (txt "amount") args' ≡ str m.amount)
        × (get (txt "is_native_token") args' ≡ bool m.is_native_token)
  unfolding validate_approved_value_movement ◌===◌ txt
  validate_approved_value_movement-IsFor a m args args' session h =
      let (n, k, h) =
        >>=-accepted (validate_approved_operation_common host now a args session _) _ h in
      let (_, h) = >>-accepted (is_empty _) _ _ h in
      let (_, h) = >>-accepted (is_empty _) _ _ h in
      let (_, h) = >>-accepted (not_positive _) _ _ h in
      transfer_accepted
        (λ x.
          IsFor a args session
          × (get (txt "recipient") x ≡ str (normalized_address host (str m.recipient)))
          × (get (txt "token_address") x ≡ str (normalized_address host (str m.token_address)))
          × (get (txt "amount") x ≡ str m.amount)
          × (get (txt "is_native_token") x ≡ bool m.is_native_token))
        h
        (
          validate_approved_operation_common-IsFor a args session _ n k,
          passes (txt "recipient") (txt "is_native_token") _ _ refl (
              passes (txt "recipient") (txt "amount") _ _ refl (
                passes (txt "recipient") (txt "token_address") _ _ refl
                  (get-put (txt "recipient") _ args))),
          passes (txt "token_address") (txt "is_native_token") _ _ refl (
              passes (txt "token_address") (txt "amount") _ _ refl
                (get-put (txt "token_address") _ _)),
          passes (txt "amount") (txt "is_native_token") _ _ refl (get-put (txt "amount") _ _),
          get-put (txt "is_native_token") _ _,
        )

  -- When the validator of asset exchanges accepts, the approval has the call's approval id,
  -- passport, chain and, up to letter case and blanks at the ends, its human receipt, and has not
  -- expired; the arguments that it returns carry the approval's two assets, as normalised
  -- addresses, its amount and its least amount bought.
  pub validate_approved_asset_exchange-IsFor :
      (a : ApprovedOperation) (x : AssetExchange) (args args' : Fields) (session : BaseMcpSession)
      → validate_approved_asset_exchange host now a x args session ≡ accepted args'
      → IsFor a args session
        × (get (txt "from_token") args' ≡ str (normalized_address host (str x.from_token)))
        × (get (txt "to_token") args' ≡ str (normalized_address host (str x.to_token)))
        × (get (txt "amount") args' ≡ str x.amount)
        × (get (txt "min_buy_amount") args' ≡ str x.min_buy_amount)
  unfolding validate_approved_asset_exchange ◌===◌ txt
  validate_approved_asset_exchange-IsFor a x args args' session h =
      let (n, k, h) =
        >>=-accepted (validate_approved_operation_common host now a args session _) _ h in
      let (_, h) =
        >>-accepted
          (is_empty (normalized_address host (str x.from_token))
            || is_empty (normalized_address host (str x.to_token)))
          _ _ h in
      let (_, h) = >>-accepted (not_positive _) _ _ h in
      let (_, h) = >>-accepted (not_positive _) _ _ h in
      transfer_accepted
        (λ y.
          IsFor a args session
          × (get (txt "from_token") y ≡ str (normalized_address host (str x.from_token)))
          × (get (txt "to_token") y ≡ str (normalized_address host (str x.to_token)))
          × (get (txt "amount") y ≡ str x.amount)
          × (get (txt "min_buy_amount") y ≡ str x.min_buy_amount))
        h
        (
          validate_approved_operation_common-IsFor a args session _ n k,
          passes (txt "from_token") (txt "min_buy_amount") _ _ refl (
              passes (txt "from_token") (txt "amount") _ _ refl (
                passes (txt "from_token") (txt "to_token") _ _ refl
                  (get-put (txt "from_token") _ args))),
          passes (txt "to_token") (txt "min_buy_amount") _ _ refl
              (passes (txt "to_token") (txt "amount") _ _ refl (get-put (txt "to_token") _ _)),
          passes (txt "amount") (txt "min_buy_amount") _ _ refl (get-put (txt "amount") _ _),
          get-put (txt "min_buy_amount") _ _,
        )

  -- When the validator of contract operations accepts, the approval has the call's approval id,
  -- passport, chain and, up to letter case and blanks at the ends, its human receipt, and has not
  -- expired; the target of the sealed transaction is the approved contract, and the arguments that
  -- it returns carry the approval's contract, method, calldata hash and value.
  pub validate_approved_contract_operation-IsFor :
      (a : ApprovedOperation) (c : ContractOperation) (args args' : Fields)
      (session : BaseMcpSession)
      → validate_approved_contract_operation host now a c args session ≡ accepted args'
      → IsFor a args session
        × (normalized_address host (str c.transaction.to)
            ≡ normalized_address host (str c.contract))
        × (get (txt "contract") args' ≡ str (normalized_address host (str c.contract)))
        × (get (txt "method") args' ≡ str (trim c.method))
        × (get (txt "calldata_hash") args' ≡ str (trim c.calldata_hash))
        × (get (txt "value") args' ≡ sealed_value host now c)
  unfolding validate_approved_contract_operation ◌===◌ txt
  validate_approved_contract_operation-IsFor a c args args' session h =
      let (n, k, h) =
        >>=-accepted (validate_approved_operation_common host now a args session _) _ h in
      let (_, h) = >>-accepted (not (num_eq c.transaction.chain_id n)) _ _ h in
      let (_, h) = >>-accepted (is_empty _) _ _ h in
      let (to, h) =
        >>-accepted
          (not (
            normalized_address host (str c.transaction.to)
            === normalized_address host (str c.contract)))
          _ _ h in
      let (_, h) = >>-accepted (not (is_calldata _)) _ _ h in
      transfer_accepted
        (λ y.
          IsFor a args session
          × (normalized_address host (str c.transaction.to)
              ≡ normalized_address host (str c.contract))
          × (get (txt "contract") y ≡ str (normalized_address host (str c.contract)))
          × (get (txt "method") y ≡ str (trim c.method))
          × (get (txt "calldata_hash") y ≡ str (trim c.calldata_hash))
          × (get (txt "value") y ≡ sealed_value host now c))
        h
        (
          validate_approved_operation_common-IsFor a args session _ n k,
          ===_sound _ _ (not-false _ to),
          passes (txt "contract") (txt "value") _ _ refl (
              passes (txt "contract") (txt "calldata_hash") _ _ refl (
                passes (txt "contract") (txt "method") _ _ refl (get-put (txt "contract") _ args))),
          passes (txt "method") (txt "value") _ _ refl
              (passes (txt "method") (txt "calldata_hash") _ _ refl (get-put (txt "method") _ _)),
          passes (txt "calldata_hash") (txt "value") _ _ refl (get-put (txt "calldata_hash") _ _),
          get-put (txt "value") _ _,
        )
