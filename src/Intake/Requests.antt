-- ===== src/Intake/Requests.antt =====
-- Requests and receipts, their text as JSON, and what is read back from an entry of a ledger.
use bankr_integration.Prelude.{
  Bool, not, ◌&&◌, Option, none, some, [], if◌then◌else◌, ◌>>=◌, ◌>>◌, guard,
}
use bankr_integration.Js.Text.{Text, txt, ◌===◌, lower, trim, is_empty}
use bankr_integration.Js.Pattern.{test_whole, times, one, is_hex}
use bankr_integration.Js.Json.{Json, str, obj, Fields, end, field, get, stringify}
use bankr_integration.Js.Objects.{is_str}
use bankr_integration.Js.Host.{Host}

pub data IntakeKind : Type 0 where
  council_plan council_audit workshop_brief workshop_reproduction workshop_build : IntakeKind

unfoldable pub kind_name : IntakeKind → Text
kind_name council_plan = txt "council_plan"
kind_name council_audit = txt "council_audit"
kind_name workshop_brief = txt "workshop_brief"
kind_name workshop_reproduction = txt "workshop_reproduction"
kind_name workshop_build = txt "workshop_build"

-- `isIntakeKind`, with the kind.
unfoldable pub kind_named : Text → Option IntakeKind
kind_named s =
    if s === txt "council_plan"
    then some council_plan
    else if s === txt "council_audit"
    then some council_audit
    else if s === txt "workshop_brief"
    then some workshop_brief
    else if s === txt "workshop_reproduction"
    then some workshop_reproduction
    else if s === txt "workshop_build"
    then some workshop_build
    else none

unfoldable pub kind_of : Json → Option IntakeKind
kind_of (str s) = kind_named s
kind_of v = none

-- The slot that was bought.
pub data Slot : Type 0 where
  intake_queue_slot workshop_intake_slot : Slot

unfoldable pub slot_name : Slot → Text
slot_name intake_queue_slot = txt "intake_queue_slot"
slot_name workshop_intake_slot = txt "workshop_intake_slot"

-- An entry of a ledger may lack its commitment or the scheme of it.
pub record IntakeReceipt : Type 0 where
  pub request_id : Text
  pub kind : IntakeKind
  pub wallet : Text
  pub title : Text
  pub target : Option Text
  pub brief_commitment : Option Text
  pub has_scheme : Bool
  pub created_at : Text
  pub purchased : Slot
  pub boundary : Text

pub record IntakeRequest : Type 0 where
  pub id : Text
  pub kind : IntakeKind
  pub wallet : Text
  pub title : Text
  pub target : Option Text
  pub created_at : Text
  pub receipt : IntakeReceipt
  pub receipt_sha256 : Text

abbrev pub scheme : Text
scheme = txt "hmac-sha256:leo-intake-brief-v1"

-- A field that is there or not.
unfoldable pub optional_field : Text → Option Text → Fields → Fields
optional_field key none fs = fs
optional_field key (some s) fs = field key (str s) fs

unfoldable pub receipt_fields : IntakeReceipt → Fields
receipt_fields r = field (txt "version") (str (txt "leo-intake-v1")) (
    field (txt "request_id") (str r.request_id) (
      field (txt "kind") (str (kind_name r.kind)) (
        field (txt "wallet") (str r.wallet) (
          field (txt "title") (str r.title) (
            optional_field (txt "target") r.target (
              optional_field (txt "brief_commitment_sha256") r.brief_commitment (
                optional_field (txt "brief_commitment_scheme")
                  (if r.has_scheme then some scheme else none)
                  (field (txt "created_at") (str r.created_at) (
                    field (txt "purchased") (str (slot_name r.purchased))
                      (field (txt "boundary") (str r.boundary) end))))))))))

unfoldable pub request_fields : IntakeRequest → Fields
request_fields r = field (txt "id") (str r.id) (
    field (txt "kind") (str (kind_name r.kind)) (
      field (txt "status") (str (txt "queued")) (
        field (txt "wallet") (str r.wallet) (
          field (txt "title") (str r.title) (
            optional_field (txt "target") r.target (
              field (txt "created_at") (str r.created_at) (
                field (txt "receipt") (obj (receipt_fields r.receipt))
                  (field (txt "receipt_sha256") (str r.receipt_sha256) end))))))))

-- `hashJson` of a receipt
unfoldable pub hash_receipt : Host → IntakeReceipt → Text
hash_receipt host r = host.sha256_hex (stringify host (obj (receipt_fields r)))

-- `cleanOptionalString`
unfoldable pub clean_optional_string : Json → Option Text
clean_optional_string (str s) = if is_empty (trim s) then none else some (trim s)
clean_optional_string v = none

unfoldable pub or_else_text : Option Text → Text → Text
or_else_text none d = d
or_else_text (some s) d = s

unfoldable pub or_else_option : Option Text → Option Text → Option Text
or_else_option none d = d
or_else_option (some s) d = some s

-- `typeof v === "string" ? v : d`
unfoldable pub string_or : Json → Text → Text
string_or (str s) d = s
string_or v d = d

-- `typeof v === "string" ? v.toLowerCase() : d`
unfoldable pub lower_or : Json → Text → Text
lower_or (str s) d = lower s
lower_or v d = d

-- A commitment of 64 hexadecimal digits, in lower case.
unfoldable pub commitment_of : Json → Option Text
commitment_of (str s) = if test_whole (times 64 (one is_hex)) s then some (lower s) else none
commitment_of v = none

-- What a receipt falls back to: the fields of its request.
pub record Fallback : Type 0 where
  pub id : Text
  pub kind : IntakeKind
  pub wallet : Text
  pub title : Text
  pub target : Option Text
  pub created_at : Text

unfoldable pub kind_or : Option IntakeKind → IntakeKind → IntakeKind
kind_or none k = k
kind_or (some j) k = j

-- `publicSafeReceipt`
unfoldable pub public_safe_receipt : Fallback → Json → Option IntakeReceipt
public_safe_receipt d (obj fs) =
    let wallet = lower_or (get (txt "wallet") fs) d.wallet in
    guard (
      is_str (txt "leo-intake-v1") (get (txt "version") fs)
      && (wallet === d.wallet && string_or (get (txt "request_id") fs) d.id === d.id))
    >> some (record {
      request_id = string_or (get (txt "request_id") fs) d.id;
      kind = kind_or (kind_of (get (txt "kind") fs)) d.kind;
      wallet = d.wallet;
      title = or_else_text (clean_optional_string (get (txt "title") fs)) d.title;
      target = or_else_option (clean_optional_string (get (txt "target") fs)) d.target;
      brief_commitment = commitment_of (get (txt "brief_commitment_sha256") fs);
      has_scheme = is_str scheme (get (txt "brief_commitment_scheme") fs);
      created_at = or_else_text (clean_optional_string (get (txt "created_at") fs)) d.created_at;
      purchased =
          if is_str (txt "workshop_intake_slot") (get (txt "purchased") fs)
          then workshop_intake_slot
          else intake_queue_slot;
      boundary =
          or_else_text (clean_optional_string (get (txt "boundary") fs))
            (txt "Receipt sanitized from legacy intake ledger.");
    })
public_safe_receipt d v = none

-- `publicSafeRequest`
unfoldable pub public_safe_request : Host → Text → Json → Option IntakeRequest
public_safe_request host wallet (obj fs) =
    let request_wallet = lower_or (get (txt "wallet") fs) [] in
    let id = string_or (get (txt "id") fs) [] in
    let target = clean_optional_string (get (txt "target") fs) in
    guard (
      request_wallet === wallet
      && (not (is_empty id) && is_str (txt "queued") (get (txt "status") fs)))
    >> (kind_of (get (txt "kind") fs) >>= λ kind.
        clean_optional_string (get (txt "title") fs) >>= λ title.
        clean_optional_string (get (txt "created_at") fs) >>= λ created_at.
        public_safe_receipt
          (record {
            id = id;
            kind = kind;
            wallet = wallet;
            title = title;
            target = target;
            created_at = created_at;
          })
          (get (txt "receipt") fs)
        >>= λ receipt. some (record {
          id = id;
          kind = kind;
          wallet = wallet;
          title = title;
          target = target;
          created_at = created_at;
          receipt = receipt;
          receipt_sha256 = hash_receipt host receipt;
        }))
public_safe_request host wallet v = none
