-- ===== src/Approval/Usage.antt =====
-- Reserving, releasing and consuming an approval (`reserveApprovedContractOperation`,
-- `releaseApprovedContractOperation`, `consumeApprovedContractOperation` and `auditEvent`). The files
-- below the usage path are the sets of the keys that have one; each call is given which of its file
-- operations fail, so a theorem about all calls covers every failure.
use bankr_integration.Prelude.{
  Bool, true, false, not, ◌&&◌, ◌||◌, Option, none, some, List, [], ◌∷◌, ◌++◌, if◌then◌else◌,
}
use bankr_integration.Js.Text.{Text, txt, ◌===◌}
use bankr_integration.Js.Number.{Number}
use bankr_integration.Js.Json.{Json, undefined, num, str, arr, obj, Fields, end, field, get}
use bankr_integration.Js.Host.{Host}
use bankr_integration.Approval.Types.{
  ApprovedOperation, ApprovalReservation, ApprovalStoreOptions, SignatureScheme, hmac_sha256,
  unsigned_local_v1,
}
use bankr_integration.Approval.Canonical.{reservation_key, configured}

pub data Outcome {ℓ} (A : Type ℓ) : Type ℓ where
  returned : A → Outcome A
  -- An exception, with its message.
  threw : Text → Outcome A

pub record Usage : Type 0 where
  pub reserved : Text → Bool
  pub consumed : Text → Bool
  pub audit : List Json

-- Which file operations of a call fail, and the message of the exception.
pub record Faults : Type 0 where
  pub mkdir_reserved : Bool
  pub mkdir_consumed : Bool
  pub create_reserved : Bool
  pub unlink_reserved : Bool
  pub rename : Bool
  pub rewrite_consumed : Bool
  pub create_consumed : Bool
  pub append_audit : Bool
  pub message : Text

pub data ReserveReply : Type 0 where
  granted : ApprovalReservation → ReserveReply
  denied : Text → ReserveReply

abbrev pub update : Text → Bool → (Text → Bool) → Text → Bool
update k b f j = if k === j then b else f j

unfoldable pub scheme_text : SignatureScheme → Text
scheme_text hmac_sha256 = txt "hmac-sha256"
scheme_text unsigned_local_v1 = txt "unsigned_local_v1"

redacted : Fields → Json
redacted fs = obj (
    field (txt "executed") (get (txt "executed") fs) (
      field (txt "accepted") (get (txt "accepted") fs) (
        field (txt "ok") (get (txt "ok") fs) (
          field (txt "tx_hash") (elim (get (txt "tx_hash") fs) [ str s ↦ str s | _ ↦ undefined ])
            end))))

-- `redactedResult`; an array is an object with none of the fields.
unfoldable pub redacted_result : Json → Json
unfolding redacted
redacted_result (obj fs) = redacted fs
redacted_result (arr xs) = redacted end
redacted_result v = undefined

module _ (host : Host) where
  unfoldable pub approval_key : ApprovedOperation → Text
  approval_key a =
      reservation_key host a.approval_id a.passport_id a.chain_id a.approval_hash a.nonce

  -- The paths of a reservation are computed anew from its fields.
  unfoldable pub key_of : ApprovalReservation → Text
  key_of r = reservation_key host r.approval_id r.passport_id r.chain_id r.approval_hash r.nonce

  unfoldable pub reservation_of : ApprovedOperation → ApprovalReservation
  reservation_of a = record {
    approval_id = a.approval_id;
    passport_id = a.passport_id;
    chain_id = a.chain_id;
    approval_hash = a.approval_hash;
    nonce = a.nonce;
    reservation_id = approval_key a;
  }

  audit_line : Number → Text → ApprovalReservation → Fields → Json
  audit_line now event r extra = obj (
      field (txt "ts") (str (host.print_date now)) (
        field (txt "event") (str event) (
          field (txt "approval_id") (str r.approval_id) (
            field (txt "passport_id") (str r.passport_id) (
              field (txt "chain_id") (num r.chain_id) (
                field (txt "approval_hash") (str r.approval_hash) (
                  field (txt "nonce") (str r.nonce)
                    (field (txt "reservation_id") (str r.reservation_id) extra))))))))

  module _ (opts : ApprovalStoreOptions) (fault : Faults) (now : Number) where
    -- `none` where appending to the log throws; without a log path nothing is written.
    unfoldable pub audit_event : Text → ApprovalReservation → Fields → Usage → Option Usage
    unfolding audit_line
    audit_event event r extra u = elim (configured opts.audit_log_path) [
      | none ↦ some u
      | some path ↦
          if fault.append_audit
          then none
          else some (record u { audit = u.audit ++ audit_line now event r extra ∷ [] })
    ]

    or_threw : Usage → Option Usage → Outcome (Unit {0}) × Usage
    or_threw u none = (threw fault.message, u)
    or_threw u (some u') = (returned tt, u')

    reserve_audited :
        Text → ApprovalReservation → Usage → Option Usage → Outcome ReserveReply × Usage
    reserve_audited k r u (some u') = (returned (granted r), u')
    reserve_audited k r u none = (
      returned (denied (txt "approval audit append failed before runtime")),
      if fault.unlink_reserved then u else record u { reserved = update k false u.reserved },
    )

    reserve_in : ApprovedOperation → Text → Usage → Outcome ReserveReply × Usage
    unfolding reserve_audited
    reserve_in a receipt_hash u =
        let k = approval_key a in
        let r = reservation_of a in
        let u' = record u { reserved = update k true u.reserved } in
        if fault.mkdir_reserved || fault.mkdir_consumed
        then (threw fault.message, u)
        else if u.consumed k
        then (returned (denied (txt "approval already consumed; replay refused")), u)
        else if u.reserved k || fault.create_reserved
        then (returned (denied (txt "approval already reserved or consumed; replay refused")), u)
        else reserve_audited k r u' (
            audit_event (txt "approval_reserved") r
              (field (txt "receipt_hash") (str receipt_hash)
                (field (txt "signature_scheme") (str (scheme_text a.signature_scheme)) end))
              u')

    unfoldable pub reserve : ApprovedOperation → Text → Usage → Outcome ReserveReply × Usage
    unfolding reserve_in
    reserve a receipt_hash u = elim (configured opts.usage_store_path) [
      | none ↦ (
        returned (denied (txt "approval usage store unavailable for governed contract operation")),
        u,
      )
      | some root ↦ reserve_in a receipt_hash u
    ]

    -- An `unlink` that fails is ignored.
    release_file : Text → Usage → Usage
    release_file k u = elim (configured opts.usage_store_path) [
      | none ↦ u
      | some root ↦
          if fault.unlink_reserved then u else record u { reserved = update k false u.reserved }
    ]

    unfoldable pub release : ApprovalReservation → Text → Json → Usage → Outcome (Unit {0}) × Usage
    unfolding release_file or_threw
    release r reason result u =
        let u' = release_file (key_of r) u in
        or_threw u' (
          audit_event (txt "approval_released") r
            (field (txt "reason") (str reason) (field (txt "result") (redacted_result result) end))
            u')

    consume_audited : ApprovalReservation → Json → Usage → Outcome (Unit {0}) × Usage
    unfolding or_threw
    consume_audited r result u = or_threw u (
        audit_event (txt "approval_consumed") r (field (txt "result") (redacted_result result) end)
          u)

    -- The rename and the write inside `try`; `false` where one of them throws.
    move_to_consumed : Text → Usage → Bool × Usage
    move_to_consumed k u =
        if u.reserved k && not fault.rename
        then (
          not fault.rewrite_consumed,
          record u { reserved = update k false u.reserved; consumed = update k true u.consumed },
        )
        else (false, u)

    consume_moved : Text → ApprovalReservation → Json → Bool × Usage → Outcome (Unit {0}) × Usage
    unfolding consume_audited
    consume_moved k r result (true, u) = consume_audited r result u
    consume_moved k r result (false, u) =
        if u.consumed k || fault.create_consumed
        then (threw fault.message, u)
        else consume_audited r result (record u { consumed = update k true u.consumed })

    unfoldable pub consume : ApprovalReservation → Json → Usage → Outcome (Unit {0}) × Usage
    unfolding consume_moved move_to_consumed
    consume r result u = elim (configured opts.usage_store_path) [
      | none ↦ (threw (txt "approval usage store unavailable for governed contract operation"), u)
      | some root ↦
          if fault.mkdir_consumed
          then (threw fault.message, u)
          else consume_moved (key_of r) r result (move_to_consumed (key_of r) u)
    ]
