-- ===== src/Passport/Update.antt =====
-- The document that gives a passport the one grant to read a wallet, its validation, and the guard and
-- the state of the transaction that publishes it. The addresses are normalised by a library, which is
-- an argument.
use bankr_integration.Prelude.{
  Bool, true, false, not, ◌&&◌, ◌||◌, Option, none, some, List, [], ◌∷◌, if◌then◌else◌, any,
}
use bankr_integration.Js.Text.{Text, txt, ◌===◌, trim, is_empty}
use bankr_integration.Js.Number.{whole, num_eq, num_lt, is_finite}
use bankr_integration.Js.Pattern.{Re, alt, test, lit_i}
use bankr_integration.Js.Json.{
  Json, undefined, num, str, arr, obj, Elems, nil, cons, Fields, end, field, get, put, text_of,
  stringify, stable,
}
use bankr_integration.Js.Objects.{is_str, copy_fields}
use bankr_integration.Js.Host.{Host}

abbrev pub read_only_policy : Text
read_only_policy = txt "c565cfdc9b659990d73cce9e50cb23c6d6c1ca6aee207c74f95b76ab26fe3473"

abbrev pub read_capability : Text
read_capability = txt "base.wallet.read"

-- `READ_GRANT`
abbrev pub read_grant : Fields
read_grant =
    field (txt "capability") (str read_capability) (field (txt "chain_id") (num (whole 8453)) end)

-- `DANGEROUS_CAPABILITY_RE`
unfoldable pub dangerous_capability : Re
dangerous_capability = alt (lit_i "value.move") (
    alt (lit_i "asset.exchange") (
      alt (lit_i "contract.") (
        alt (lit_i "x402") (
          alt (lit_i "receipt.publish")
            (alt (lit_i "pay") (alt (lit_i "swap") (alt (lit_i "transfer") (lit_i "execute"))))))))

unfoldable pub objects_of : Elems → List Fields
objects_of nil = []
objects_of (cons (obj fs) xs) = fs ∷ objects_of xs
objects_of (cons v xs) = objects_of xs

unfoldable pub grants_in : Json → List Fields
unfolding objects_of
grants_in (arr xs) = objects_of xs
grants_in v = []

-- `grantArray`
unfoldable pub grant_array : Fields → List Fields
grant_array document = grants_in (get (txt "capability_grants") document)

unfoldable pub is_dangerous : Fields → Bool
is_dangerous grant = elim (get (txt "capability") grant) [
  | str s ↦ test dangerous_capability s && not (s === read_capability)
  | _ ↦ false
]

unfoldable pub issue_if : Bool → Text → List Text → List Text
issue_if c issue issues = if c then issue ∷ issues else issues

unfoldable pub is_number : Json → Bool
is_number (num n) = num_eq n (whole 8453)
is_number v = false

unfoldable pub is_other_policy : Json → Bool
is_other_policy undefined = false
is_other_policy v = not (is_str read_only_policy v)

pub record ReadOnlyGrantInput : Type 0 where
  pub passport_id : Text
  pub current_document : Fields
  pub expires_at : Option Text
  pub policy_hash : Option Text

pub data ReadOnlyGrantResult : Type 0 where
  -- The document, and the digests of the old and of the new one.
  built : Fields → Text → Text → ReadOnlyGrantResult
  refused : Text → List Text → Text → ReadOnlyGrantResult

module _ (host : Host) where
  unfoldable pub passport_matches : Fields → Text → Bool
  passport_matches document passport_id = elim (get (txt "passport_id") document) [
    | undefined ↦ true
    | v ↦ text_of host v === passport_id
  ]

  -- `validateExpiry` of a text
  unfoldable pub expires_after : Text → Option Text → Bool
  expires_after expiry now =
      not (is_empty (trim expiry))
      && (is_finite (host.parse_date expiry) && (elim now [
        | none ↦ true
        | some t ↦
            is_empty t
            || (is_finite (host.parse_date t)
                && num_lt (host.parse_date t) (host.parse_date expiry))
      ]))

  unfoldable pub validate_expiry : Json → Option Text → Bool
  unfolding expires_after
  validate_expiry undefined now = true
  validate_expiry (str s) now = expires_after s now
  validate_expiry v now = false

  -- The issues of the first grant.
  unfoldable pub grant_issues : Fields → Option Text → List Text
  unfolding issue_if is_number is_other_policy
  grant_issues grant now =
      issue_if (not (is_str read_capability (get (txt "capability") grant)))
        (txt "grant_capability_mismatch")
        (issue_if (not (is_number (get (txt "chain_id") grant))) (txt "grant_chain_id_mismatch") (
          issue_if (is_dangerous grant) (txt "dangerous_grant_capability") (
            issue_if (is_other_policy (get (txt "policy_hash") grant)) (txt "policy_hash_mismatch")
              (issue_if (not (validate_expiry (get (txt "expires_at") grant) now))
                (txt "expires_at_invalid_or_expired") []))))

  unfoldable pub issues_of : List Fields → Option Text → List Text
  issues_of [] now = txt "unexpected_grant_count" ∷ txt "missing_read_grant" ∷ []
  issues_of (grant ∷ []) now = grant_issues grant now
  issues_of (grant ∷ other ∷ grants) now = txt "unexpected_grant_count" ∷ grant_issues grant now

  -- `validateReadOnlyGrantDocument`: its issues; the document is valid where there are none.
  unfoldable pub document_issues : Fields → Option Text → List Text
  document_issues document now = issues_of (grant_array document) now

  document_hash : Fields → Text
  document_hash document = host.sha256_hex (stringify host (stable host (obj document)))

  unfoldable pub with_expiry : Option Text → Fields → Fields
  with_expiry none grant = grant
  with_expiry (some t) grant = if is_empty t then grant else put (txt "expires_at") (str t) grant

  unfoldable pub or_read_only : Option Text → Text
  or_read_only none = read_only_policy
  or_read_only (some h) = h

  unfoldable pub new_grant : ReadOnlyGrantInput → Fields
  unfolding with_expiry or_read_only
  new_grant input =
      put (txt "policy_hash") (str (or_read_only input.policy_hash))
        (with_expiry input.expires_at read_grant)

  unfoldable pub new_document : ReadOnlyGrantInput → Fields
  unfolding new_grant
  new_document input =
      put (txt "capability_grants") (arr (cons (obj (new_grant input)) nil))
        (put (txt "passport_id") (str input.passport_id) (copy_fields input.current_document))

  unfoldable pub result_of : Fields → List Text → Text → ReadOnlyGrantResult
  unfolding document_hash
  result_of document [] before = built document before (document_hash document)
  result_of document (issue ∷ issues) before =
      refused (txt "patched document failed read-only grant validation") (issue ∷ issues) before

  -- `buildReadOnlyGrantDocument`
  unfoldable pub build_read_only_grant_document : ReadOnlyGrantInput → ReadOnlyGrantResult
  unfolding passport_matches document_hash result_of
  build_read_only_grant_document input =
      let before = document_hash input.current_document in
      if any is_dangerous (grant_array input.current_document)
      then refused (txt "dangerous sibling grant present") (txt "dangerous_grant_capability" ∷ [])
          before
      else if not (passport_matches input.current_document input.passport_id)
      then refused (txt "passport_id mismatch") (txt "passport_id_mismatch" ∷ []) before
      else result_of (new_document input) (document_issues (new_document input) none) before
