-- ===== src/Bankr/Writes.antt =====
-- The governed writes of the runtime: `executeApprovedValueMovement`, `executeApprovedAssetExchange` and
-- `executeApprovedContractOperation`.
use bankr_integration.Prelude.{true, false, not, Option, none, some, List, [], ◌∷◌, if◌then◌else◌}
use bankr_integration.Js.Text.{txt}
use bankr_integration.Js.Json.{Json, bool, num, str, obj, get}
use bankr_integration.Js.Host.{Host}
use bankr_integration.Approval.Types.{ApprovedOperation, ContractOperation, contract_operation}
use bankr_integration.Mcp.Execution.{ExecutionInput}
use bankr_integration.Bankr.Http.{Web, Request, Server, Sent, ◌>>=◌, give, lift, chain_name}
use bankr_integration.Bankr.Adapter.{
  Adapter, fields, transfer_body, tx_hash_of, text_property, fetch, post_request, text_arg,
  chain_id, disabled_write,
}

module _ (host : Host) (web : Web) (server : Server) (a : Adapter) where
  module _ (input : ExecutionInput) where
    open input use {args, session}

    unfoldable pub move_value : List Request → Sent Json
    unfolding fetch
    move_value =
        let body =
          transfer_body (text_arg host web server a input (txt "token_address"))
            (text_arg host web server a input (txt "recipient"))
            (text_arg host web server a input (txt "amount"))
            (elim (get (txt "is_native_token") args) [ bool b ↦ b | _ ↦ false ]) in
        if not a.governed_writes
        then give (disabled_write host web server a input)
        else fetch host web server a (post_request host web server a (txt "/wallet/transfer") body)
          >>= λ transfer. lift (text_property (txt "txHash") transfer) >>= λ tx_hash. give (
              obj (
                fields (
                  (txt "provider", str (txt "bankr"))
                  ∷ (txt "mode", str (txt "governed_write"))
                  ∷ (txt "endpoint", str (txt "/wallet/transfer"))
                  ∷ (txt "executed", bool true)
                  ∷ (txt "tx_hash", tx_hash)
                  ∷ (txt "chain_id", chain_id host web server a input)
                  ∷ (txt "passport_id", str session.passport.passport_id)
                  ∷ (txt "receipt_hash", str input.of_policy.hash)
                  ∷ (txt "result", transfer)
                  ∷ [])))

    unfoldable pub exchange_assets : List Request → Sent Json
    unfolding fetch
    exchange_assets =
        let chain = str (chain_name host (get (txt "chain_id") args)) in
        let body = obj (
          fields (
            (txt "fromChain", chain)
            ∷ (txt "fromToken", text_arg host web server a input (txt "from_token"))
            ∷ (txt "toChain", chain)
            ∷ (txt "toToken", text_arg host web server a input (txt "to_token"))
            ∷ (txt "amount", text_arg host web server a input (txt "amount"))
            ∷ (txt "minBuyAmount", text_arg host web server a input (txt "min_buy_amount"))
            ∷ [])) in
        if not a.governed_writes
        then give (disabled_write host web server a input)
        else fetch host web server a (post_request host web server a (txt "/wallet/swap") body)
          >>= λ swap. lift (text_property (txt "hash") swap) >>= λ tx_hash. give (
              obj (
                fields (
                  (txt "provider", str (txt "bankr"))
                  ∷ (txt "mode", str (txt "governed_write"))
                  ∷ (txt "endpoint", str (txt "/wallet/swap"))
                  ∷ (txt "executed", bool true)
                  ∷ (txt "tx_hash", tx_hash)
                  ∷ (txt "chain_id", chain_id host web server a input)
                  ∷ (txt "passport_id", str session.passport.passport_id)
                  ∷ (txt "receipt_hash", str input.of_policy.hash)
                  ∷ (txt "result", swap)
                  ∷ [])))

    -- The body of a submission: the transaction of the approval.
    abbrev pub submission : ContractOperation → Json
    submission c = obj (
        fields (
          (
            txt "transaction",
            obj (
                fields (
                  (txt "chainId", num c.transaction.chain_id)
                  ∷ (txt "to", str c.transaction.to)
                  ∷ (txt "data", str c.transaction.calldata)
                  ∷ (txt "value", str (elim c.transaction.value [ none ↦ txt "0x0" | some v ↦ v ]))
                  ∷ [])),
          )
          ∷ []))

    unfoldable pub submit_operation :
        ApprovedOperation → ContractOperation → List Request → Sent Json
    unfolding fetch
    submit_operation approval c =
        fetch host web server a
          (post_request host web server a (txt "/wallet/submit") (submission c))
        >>= λ submitted. lift (tx_hash_of submitted) >>= λ tx_hash. give (
            obj (
              fields (
                (txt "provider", str (txt "bankr"))
                ∷ (txt "mode", str (txt "governed_write"))
                ∷ (txt "endpoint", str (txt "/wallet/submit"))
                ∷ (txt "executed", bool true)
                ∷ (txt "tx_hash", tx_hash)
                ∷ (txt "chain_id", num approval.chain_id)
                ∷ (txt "passport_id", str session.passport.passport_id)
                ∷ (txt "approval_id", str approval.approval_id)
                ∷ (txt "calldata_hash", str c.calldata_hash)
                ∷ (txt "human_approval_receipt", str approval.human_approval_receipt)
                ∷ (txt "receipt_hash", str input.of_policy.hash)
                ∷ [])))

    missing_approval : Json
    missing_approval = obj (
        fields (
          (txt "provider", str (txt "bankr"))
          ∷ (txt "mode", str (txt "missing_approval_record"))
          ∷ (txt "executed", bool false)
          ∷ (txt "passport_id", str session.passport.passport_id)
          ∷ (txt "receipt_hash", str input.of_policy.hash)
          ∷ []))

    -- `input.approvedContractOperation`: the approval, if it has a transaction.
    unfoldable pub submit_approved : Option ApprovedOperation → List Request → Sent Json
    unfolding missing_approval
    submit_approved none = give missing_approval
    submit_approved (some approval) = elim approval.operation [
      | contract_operation c ↦ submit_operation approval c
      | _ ↦ give missing_approval
    ]

    unfoldable pub operate_contract : List Request → Sent Json
    operate_contract =
        if not a.governed_writes
        then give (disabled_write host web server a input)
        else submit_approved input.approved_operation
