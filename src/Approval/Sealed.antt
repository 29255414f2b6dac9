-- ===== src/Approval/Sealed.antt =====
-- What an approval that was read from the file guarantees.
use bankr_integration.Prelude.{◌≡◌, Option, none, some, arith, >>=-eq-some}
use bankr_integration.Js.Text.{Text, txt, ===_sound}
use bankr_integration.Js.Json.{Json, Fields, get}
use bankr_integration.Js.Host.{Host}
use bankr_integration.Approval.Types.{
  ApprovedOperation, ApprovalStoreOptions, SignatureScheme, hmac_sha256,
}
use bankr_integration.Approval.Canonical.{
  canonical_approval_hash, hmac_signature, signature_scheme_for, signed_by, configured, as_text,
}
use bankr_integration.Approval.Parse.{as_record, common_approval_fields, parse_approval}
use bankr_integration.Approval.Own.{IsOwn, IsAimed, Reads, parse_operation-Reads}

module _ (host : Host) (opts : ApprovalStoreOptions) where
  -- The approval carries the hash of the canonical text of the object that it was read from, with
  -- the transaction of that object, whose parts are those of the approval's own transaction.
  abbrev pub IsSealed : Fields → ApprovedOperation → Type 0
  IsSealed item a =
      (tx : Option Fields) × IsOwn item tx a.operation
      × (a.approval_hash ≡ canonical_approval_hash host item tx)
      × (signature_scheme_for host item a.approval_hash opts ≡ some a.signature_scheme)
      × (a.signature ≡ as_text (get (txt "signature") item))

  parse_approval-Reads :
      (v : Json) {a : ApprovedOperation}
      → parse_approval host opts v ≡ some a
      → (item : Fields) × (as_record v ≡ some item) × Reads host opts item a
  unfolding parse_approval
  parse_approval-Reads v h =
      let (item, found, h') = >>=-eq-some (as_record v) _ h in
      let (c, common, parsed) = >>=-eq-some (common_approval_fields host opts item) _ h' in
      (item, found, parse_operation-Reads host opts item c parsed)

  -- Every approval that is read from the file was an object, its stated hash is the hash of the
  -- canonical text of that object, taken with the object's own transaction for a contract operation
  -- and with none for the other kinds, the approval's transaction has the chain, target, calldata
  -- and value of the object's, its scheme is what the signature check gave for that hash, and its
  -- signature is the object's.
  pub parse_approval-IsSealed :
      (v : Json) {a : ApprovedOperation}
      → parse_approval host opts v ≡ some a
      → (item : Fields) × (as_record v ≡ some item) × IsSealed item a
  parse_approval-IsSealed v h =
      let (item, found, (tx, own, hash, scheme, signature, _)) = parse_approval-Reads v h in
      (item, found, (tx, own, hash, scheme, signature))

  signature_of_secret :
      (item : Fields) (hash secret : Text) (signature : Option Text) {scheme : SignatureScheme}
      → signed_by host secret hash signature ≡ some scheme
      → (signature ≡ some (hmac_signature host hash secret)) × (scheme ≡ hmac_sha256)
  unfolding signed_by
  signature_of_secret item hash secret none h = cc
  signature_of_secret item hash secret (some s) h =
      ground (arith, ===_sound s (hmac_signature host hash secret))

  -- Where a signing secret is configured, every approval that is read from the file carries the
  -- HMAC of its own hash under that secret and the scheme of that check.
  pub parse_approval_signed :
      (v : Json) (secret : Text) {a : ApprovedOperation}
      → configured opts.signing_secret ≡ some secret
      → parse_approval host opts v ≡ some a
      → (a.signature ≡ some (hmac_signature host a.approval_hash secret))
        × (a.signature_scheme ≡ hmac_sha256)
  unfolding signature_scheme_for
  parse_approval_signed v secret {a} key h =
      let (item, _, (tx, own, hash, scheme, signature)) = parse_approval-IsSealed v h in
      let checked = rw (key, signature_scheme_for) at scheme in
      rw signature (
        signature_of_secret item a.approval_hash secret (as_text (get (txt "signature") item))
          checked)

  -- Every contract operation that is read from the file has a transaction on the approved chain, to
  -- the approved contract up to the case of its letters.
  pub parse_approval-IsAimed :
      (v : Json) {a : ApprovedOperation}
      → parse_approval host opts v ≡ some a
      → IsAimed a.chain_id a.operation
  parse_approval-IsAimed v h =
      let (_, _, (_, _, _, _, _, aimed)) = parse_approval-Reads v h in aimed
