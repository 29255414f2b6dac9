-- ===== src/Approval/Canonical.antt =====
-- The canonical text of an approval, its hash and its signature (`stable`, `approvalPayload`,
-- `canonicalApprovalHash`, `hmacSignature`, `signatureSchemeFor`, `reservationKey`).
use bankr_integration.Prelude.{
  Bool, false, Option, none, some, List, [], ◌∷◌, ◌++◌, map, if◌then◌else◌,
}
use bankr_integration.Js.Text.{
  Text, txt, ◌===◌, join, sort_by, text_le, lower, trim, is_empty, starts_with,
}
use bankr_integration.Js.Number.{Number}
use bankr_integration.Js.Json.{
  Json, undefined, num, str, arr, obj, Elems, nil, cons, Fields, end, field, get, or_else, text_of,
  stringify, quote,
}
use bankr_integration.Js.Host.{Host}
use bankr_integration.Approval.Types.{
  SignatureScheme, hmac_sha256, unsigned_local_v1, ApprovalStoreOptions,
}

abbrev entry_le : Text × Text → Text × Text → Bool
entry_le (j, s) (k, t) = text_le j k

abbrev entry_text : Text × Text → Text
entry_text (k, s) = quote k ++ (txt ":" ++ s)

-- `item.operation_kind === kind`
unfoldable pub has_kind : Fields → Text → Bool
has_kind item kind = elim (get (txt "operation_kind") item) [ str s ↦ s === kind | _ ↦ false ]

-- `typeof item.signature === "string" ? item.signature : undefined`
abbrev pub as_text : Json → Option Text
as_text (str s) = some s
as_text v = none

-- `opts.signingSecret?.trim()`, none for a blank one.
abbrev pub configured : Option Text → Option Text
configured none = none
configured (some s) = if is_empty (trim s) then none else some (trim s)

module _ (host : Host) where
  -- `stable` of this file: keys in the order of code units, an undefined property spelled out, an
  -- undefined element empty.
  unfoldable mutual
    unfolding sort_by

    pub stable_text : Json → Text
    stable_text undefined = txt "undefined"
    stable_text (arr xs) = txt "[" ++ (join (txt ",") (stable_elems xs) ++ txt "]")
    stable_text (obj fs) =
        txt "{"
        ++ (join (txt ",") (map entry_text (sort_by entry_le (stable_entries fs))) ++ txt "}")
    stable_text v = stringify host v

    pub stable_elems : Elems → List Text
    stable_elems nil = []
    stable_elems (cons undefined xs) = [] ∷ stable_elems xs
    stable_elems (cons v xs) = stable_text v ∷ stable_elems xs

    pub stable_entries : Fields → List (Text × Text)
    stable_entries end = []
    stable_entries (field k v fs) = (k, stable_text v) ∷ stable_entries fs

  -- `String(v ?? "").toLowerCase()`
  lowered : Json → Json
  lowered v = str (lower (text_of host (or_else v (str []))))

  -- The payload of a contract operation, over the transaction's own fields.
  contract_payload : Fields → Fields → Json
  unfolding lowered
  contract_payload item body = obj (
      field (txt "approval_id") (get (txt "approval_id") item) (
        field (txt "passport_id") (get (txt "passport_id") item) (
          field (txt "chain_id") (get (txt "chain_id") item) (
            field (txt "contract") (lowered (get (txt "contract") item)) (
              field (txt "method") (get (txt "method") item) (
                field (txt "calldata_hash") (get (txt "calldata_hash") item) (
                  field (txt "human_approval_receipt") (get (txt "human_approval_receipt") item) (
                    field (txt "expires_at") (get (txt "expires_at") item) (
                      field (txt "nonce") (get (txt "nonce") item) (
                        field (txt "transaction")
                          (obj (
                            field (txt "chainId") (get (txt "chainId") body) (
                              field (txt "to") (lowered (get (txt "to") body)) (
                                field (txt "data_hash")
                                  (str (
                                    txt "sha256:"
                                    ++ host.sha256_hex
                                        (text_of host (or_else (get (txt "data") body) (str [])))))
                                  (field (txt "value")
                                    (or_else (get (txt "value") body) (str (txt "0x0"))) end)))))
                          end))))))))))

  value_payload : Fields → Json
  unfolding lowered
  value_payload item = obj (
      field (txt "operation_kind") (str (txt "value_movement")) (
        field (txt "approval_id") (get (txt "approval_id") item) (
          field (txt "passport_id") (get (txt "passport_id") item) (
            field (txt "chain_id") (get (txt "chain_id") item) (
              field (txt "recipient") (lowered (get (txt "recipient") item)) (
                field (txt "token_address") (lowered (get (txt "token_address") item)) (
                  field (txt "amount") (get (txt "amount") item) (
                    field (txt "is_native_token") (get (txt "is_native_token") item) (
                      field (txt "human_approval_receipt") (get (txt "human_approval_receipt") item)
                        (field (txt "expires_at") (get (txt "expires_at") item)
                          (field (txt "nonce") (get (txt "nonce") item) end)))))))))))

  exchange_payload : Fields → Json
  unfolding lowered
  exchange_payload item = obj (
      field (txt "operation_kind") (str (txt "asset_exchange")) (
        field (txt "approval_id") (get (txt "approval_id") item) (
          field (txt "passport_id") (get (txt "passport_id") item) (
            field (txt "chain_id") (get (txt "chain_id") item) (
              field (txt "from_token") (lowered (get (txt "from_token") item)) (
                field (txt "to_token") (lowered (get (txt "to_token") item)) (
                  field (txt "amount") (get (txt "amount") item) (
                    field (txt "min_buy_amount") (get (txt "min_buy_amount") item) (
                      field (txt "human_approval_receipt") (get (txt "human_approval_receipt") item)
                        (field (txt "expires_at") (get (txt "expires_at") item)
                          (field (txt "nonce") (get (txt "nonce") item) end)))))))))))

  unfoldable pub approval_payload : Fields → Option Fields → Json
  unfolding contract_payload value_payload exchange_payload
  approval_payload item tx =
      if has_kind item (txt "value_movement")
      then value_payload item
      else if has_kind item (txt "asset_exchange")
      then exchange_payload item
      else contract_payload item (elim tx [ some body ↦ body | none ↦ end ])

  unfoldable pub canonical_approval_hash : Fields → Option Fields → Text
  canonical_approval_hash item tx =
      txt "sha256:" ++ host.sha256_hex (stable_text (approval_payload item tx))

  unfoldable pub hmac_signature : Text → Text → Text
  hmac_signature hash secret = txt "hmac-sha256:" ++ host.hmac_hex secret hash

  unfoldable pub signed_by : Text → Text → Option Text → Option SignatureScheme
  signed_by secret hash none = none
  signed_by secret hash (some signature) =
      if signature === hmac_signature hash secret then some hmac_sha256 else none

  unfoldable pub unsigned : Option Text → SignatureScheme
  unsigned none = unsigned_local_v1
  unsigned (some signature) =
      if starts_with signature (txt "hmac-sha256:") then hmac_sha256 else unsigned_local_v1

  unfoldable pub signature_scheme_for :
      Fields → Text → ApprovalStoreOptions → Option SignatureScheme
  unfolding signed_by unsigned
  signature_scheme_for item hash opts = elim (configured opts.signing_secret) [
    | some secret ↦ signed_by secret hash (as_text (get (txt "signature") item))
    | none ↦ some (unsigned (as_text (get (txt "signature") item)))
  ]

  unfoldable pub reservation_key : Text → Text → Number → Text → Text → Text
  reservation_key approval_id passport_id chain_id approval_hash nonce = host.sha256_hex (
      stable_text (
        obj (
          field (txt "approval_id") (str approval_id) (
            field (txt "passport_id") (str passport_id) (
              field (txt "chain_id") (num chain_id) (
                field (txt "approval_hash") (str approval_hash)
                  (field (txt "nonce") (str nonce) end)))))))
