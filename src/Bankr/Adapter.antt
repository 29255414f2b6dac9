-- ===== src/Bankr/Adapter.antt =====
-- The configuration of the adapter (`createBankrRuntimeAdapter`), its requests and the reading of a
-- wallet.
use bankr_integration.Prelude.{Bool, false, Option, none, some, List, [], ◌∷◌, ◌++◌, if◌then◌else◌}
use bankr_integration.Js.Text.{Text, txt, lower, trim, is_empty}
use bankr_integration.Js.Json.{
  Json, undefined, null, bool, num, str, obj, Fields, end, field, get, or_else, text_of, to_number,
  clean,
}
use bankr_integration.Js.Host.{Host}
use bankr_integration.Approval.Usage.{Outcome, returned, threw}
use bankr_integration.Mcp.Execution.{ExecutionInput}
use bankr_integration.Bankr.Http.{
  Web, BankrRuntimeOptions, get_method, post_method, Request, Server, Sent, ◌>>=◌, give,
  clean_base_url, clean_api_path, chain_name, request,
}

abbrev pub fields : List (Text × Json) → Fields
fields [] = end
fields ((k, v) ∷ xs) = field k v (fields xs)

abbrev pub transfer_body : Json → Json → Json → Bool → Json
transfer_body token recipient amount is_native = obj (
    fields (
      (txt "tokenAddress", token)
      ∷ (txt "recipientAddress", recipient)
      ∷ (txt "amount", amount)
      ∷ (txt "isNativeToken", bool is_native)
      ∷ []))

-- `...(value ? { [key]: value } : {})`
abbrev pub if_given : Text → Text → List (Text × Json)
if_given key value = if is_empty value then [] else (key, str value) ∷ []

-- `typeof value.key === "string" ? value.key : undefined`; reading a property of `null` throws.
unfoldable pub text_property : Text → Json → Outcome Json
text_property key null = threw (txt "Cannot read properties of null (reading '" ++ key ++ txt "')")
text_property key (obj fs) = returned (elim (get key fs) [ str s ↦ str s | _ ↦ undefined ])
text_property key v = returned undefined

-- The two in turn.
unfoldable pub tx_hash_of : Json → Outcome Json
tx_hash_of v = elim (text_property (txt "txHash") v) [
  | returned undefined ↦ text_property (txt "hash") v
  | o ↦ o
]

-- The adapter as it is configured: `none` for a payment or publication path that is not set.
pub record Adapter : Type 0 where
  pub api_key : Text
  pub api_base_url : Text
  pub receipt_publish_path : Option Text
  pub x402_payment_path : Option Text
  pub governed_writes : Bool
  pub x402_payments : Bool

configure_paths :
    BankrRuntimeOptions → Text → Outcome (Option Text) → Outcome (Option Text) → Outcome Adapter
configure_paths opts base (threw e) p = threw e
configure_paths opts base (returned r) (threw e) = threw e
configure_paths opts base (returned r) (returned x) = returned (record {
  api_key = trim opts.api_key;
  api_base_url = base;
  receipt_publish_path = r;
  x402_payment_path = x;
  governed_writes = opts.enable_governed_writes;
  x402_payments = opts.enable_x402_payments;
})

configure_base : BankrRuntimeOptions → Outcome Text → Outcome Adapter
unfolding configure_paths
configure_base opts (threw e) = threw e
configure_base opts (returned base) =
    configure_paths opts base
      (clean_api_path opts.receipt_publish_path (txt "BANKR_RECEIPT_PUBLISH_PATH"))
      (clean_api_path opts.x402_payment_path (txt "BANKR_X402_PAYMENT_PATH"))

-- What `createBankrRuntimeAdapter` does before it returns the methods.
unfoldable pub configure : Web → BankrRuntimeOptions → Outcome Adapter
unfolding configure_base
configure web opts =
    if is_empty (trim opts.api_key)
    then threw (txt "BANKR_API_KEY is required for Bankr runtime")
    else configure_base opts (clean_base_url web opts.api_base_url)

module _ (host : Host) (web : Web) (server : Server) (a : Adapter) where
  abbrev pub get_request : Text → Request
  get_request path = record {
    method = get_method;
    url = a.api_base_url ++ path;
    key = a.api_key;
    body = none;
  }

  abbrev pub post_request : Text → Json → Request
  post_request path body = record {
    method = post_method;
    url = a.api_base_url ++ path;
    key = a.api_key;
    body = some body;
  }

  unfoldable pub fetch : Request → List Request → Sent Json
  fetch r = request host server r

  module _ (input : ExecutionInput) where
    open input use {args, session}

    abbrev pub text_arg : Text → Json
    text_arg key = str (text_of host (or_else (get key args) (str [])))

    abbrev pub chain_id : Json
    chain_id = num (to_number host (get (txt "chain_id") args))

    unfoldable pub disabled_write : Json
    disabled_write = obj (
        fields (
          (txt "provider", str (txt "bankr"))
          ∷ (txt "mode", str (txt "bankr_governed_writes_disabled"))
          ∷ (txt "executed", bool false)
          ∷ (
            txt "note",
            str (
                txt
                  "Bankr governed write execution is disabled unless BANKR_GOVERNED_WRITES_ENABLED=true and a passport/kernel/human-approved request reaches this adapter."),
          )
          ∷ (txt "passport_id", str session.passport.passport_id)
          ∷ (txt "receipt_hash", str input.of_policy.hash)
          ∷ []))

    unfoldable pub read_wallet : List Request → Sent Json
    unfolding fetch
    read_wallet =
        let chain = chain_name host (get (txt "chain_id") args) in
        let agent_wallet = lower (clean host (get (txt "agent_wallet") args)) in
        fetch (get_request (txt "/wallet/me")) >>= λ bankr_wallet.
        fetch (get_request (txt "/wallet/portfolio?chains=" ++ web.encode_uri_component chain))
        >>= λ portfolio. give (
            obj (
              fields (
                (txt "provider", str (txt "bankr"))
                ∷ (txt "mode", str (txt "read_only"))
                ∷ (txt "source", str (txt "bankr_wallet_api"))
                ∷ (txt "wallet", str (lower session.wallet))
                ∷ (txt "agent_id", str session.passport.agent_id)
                ∷ (txt "passport_id", str session.passport.passport_id)
                ∷ (txt "agent_wallet", if is_empty agent_wallet then null else str agent_wallet)
                ∷ (txt "chain_id", chain_id)
                ∷ (txt "chain", str chain)
                ∷ (txt "bankr_wallet", bankr_wallet)
                ∷ (txt "portfolio", portfolio)
                ∷ (txt "receipt_hash", str input.of_policy.hash)
                ∷ [])))
