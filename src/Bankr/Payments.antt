-- ===== src/Bankr/Payments.antt =====
-- The payment of an invoice and the publication of a receipt: `payX402Invoice`, `publishReceiptHash`.
use bankr_integration.Prelude.{true, false, ◌||◌, none, some, List, [], ◌∷◌, ◌++◌, if◌then◌else◌}
use bankr_integration.Js.Text.{Text, txt, lower, is_empty}
use bankr_integration.Js.Json.{Json, bool, str, obj, get, clean}
use bankr_integration.Js.Host.{Host}
use bankr_integration.Mcp.Tools.{capability}
use bankr_integration.Mcp.Execution.{ExecutionInput}
use bankr_integration.Bankr.Http.{Web, Request, Server, Sent, ◌>>=◌, give, throw, lift}
use bankr_integration.Bankr.Adapter.{
  Adapter, fields, if_given, tx_hash_of, fetch, post_request, chain_id,
}

module _ (host : Host) (web : Web) (server : Server) (a : Adapter) where
  module _ (input : ExecutionInput) where
    open input use {args, session}

    -- A mode in which nothing is sent.
    not_sent : Text → Text → Json
    not_sent mode note = obj (
        fields (
          (txt "provider", str (txt "bankr"))
          ∷ (txt "mode", str mode)
          ∷ (txt "executed", bool false)
          ∷ (txt "note", str note)
          ∷ (txt "passport_id", str session.passport.passport_id)
          ∷ (txt "receipt_hash", str input.of_policy.hash)
          ∷ []))

    abbrev clean_arg : Text → Text
    clean_arg key = clean host (get key args)

    pay_at : Text → List Request → Sent Json
    unfolding fetch
    pay_at path =
        let recipient = clean_arg (txt "recipient") in
        let amount = clean_arg (txt "amount") in
        let asset = clean_arg (txt "asset") in
        let invoice_url = clean_arg (txt "invoice_url") in
        let body = obj (
          fields (
            (txt "recipient", str recipient)
              ∷ (txt "amount", str amount)
              ∷ if_given (txt "asset") asset
            ++ (txt "chain_id", chain_id host web server a input)
              ∷ (txt "invoice_url", str invoice_url)
              ∷ (txt "passport_id", str session.passport.passport_id)
              ∷ (txt "agent_id", str session.passport.agent_id)
              ∷ (txt "wallet", str (lower session.wallet))
              ∷ (txt "capability", str (capability input.tool))
              ∷ (txt "policy_receipt_hash", str input.of_policy.hash)
              ∷ [])) in
        if is_empty recipient || (is_empty amount || is_empty invoice_url)
        then throw (txt "recipient, amount, and invoice_url are required for Bankr x402 payment")
        else fetch host web server a (post_request host web server a path body) >>= λ result.
            lift (tx_hash_of result) >>= λ tx_hash. give (
              obj (
                fields (
                  (txt "provider", str (txt "bankr"))
                    ∷ (txt "mode", str (txt "x402_payment"))
                    ∷ (txt "endpoint", str path)
                    ∷ (txt "executed", bool true)
                    ∷ (txt "tx_hash", tx_hash)
                    ∷ (txt "passport_id", str session.passport.passport_id)
                    ∷ (txt "chain_id", chain_id host web server a input)
                    ∷ (txt "recipient", str recipient)
                    ∷ (txt "amount", str amount)
                    ∷ if_given (txt "asset") asset
                  ++ (txt "receipt_hash", str input.of_policy.hash) ∷ (txt "result", result) ∷ [])))

    unfoldable pub pay_invoice : List Request → Sent Json
    unfolding pay_at not_sent
    pay_invoice = elim a.x402_payment_path [
      | none ↦ give (
          not_sent (txt "bankr_x402_disabled") (
            txt
              "Bankr x402 payment execution is disabled unless BANKR_X402_PAYMENTS_ENABLED=true and BANKR_X402_PAYMENT_PATH is configured server-side."))
      | some path ↦
          if a.x402_payments
          then pay_at path
          else give (
              not_sent (txt "bankr_x402_disabled") (
                txt
                  "Bankr x402 payment execution is disabled unless BANKR_X402_PAYMENTS_ENABLED=true and BANKR_X402_PAYMENT_PATH is configured server-side."))
    ]

    publish_at : Text → List Request → Sent Json
    unfolding fetch
    publish_at path =
        let receipt_hash = clean_arg (txt "receipt_hash") in
        let body = obj (
          fields (
            (txt "receipt_hash", str receipt_hash)
              ∷ if_given (txt "subject") (clean_arg (txt "subject"))
            ++ (txt "passport_id", str session.passport.passport_id)
              ∷ (txt "agent_id", str session.passport.agent_id)
              ∷ (txt "wallet", str (lower session.wallet))
              ∷ (txt "chain_id", chain_id host web server a input)
              ∷ (txt "capability", str (capability input.tool))
              ∷ (txt "policy_receipt_hash", str input.of_policy.hash)
              ∷ [])) in
        if is_empty receipt_hash
        then throw (txt "receipt_hash is required for Bankr receipt publication")
        else fetch host web server a (post_request host web server a path body) >>= λ result. give (
            obj (
              fields (
                (txt "provider", str (txt "bankr"))
                ∷ (txt "mode", str (txt "receipt_publish"))
                ∷ (txt "endpoint", str path)
                ∷ (txt "executed", bool true)
                ∷ (txt "passport_id", str session.passport.passport_id)
                ∷ (txt "chain_id", chain_id host web server a input)
                ∷ (txt "receipt_hash", str receipt_hash)
                ∷ (txt "policy_receipt_hash", str input.of_policy.hash)
                ∷ (txt "result", result)
                ∷ [])))

    unfoldable pub publish_receipt : List Request → Sent Json
    unfolding publish_at not_sent
    publish_receipt = elim a.receipt_publish_path [
      | none ↦ give (
          not_sent (txt "bankr_receipt_publish_disabled") (
            txt
              "Bankr receipt publication is not configured in this adapter slice; set BANKR_RECEIPT_PUBLISH_PATH to enable hash-only receipt attestations."))
      | some path ↦ publish_at path
    ]
