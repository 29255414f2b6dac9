-- ===== src/Approval/Tests.antt =====
-- An approval of a contract operation, read, reserved and consumed, and the theorems on approvals at it.
use bankr_integration.Prelude.{◌≡◌, refl, ◌≤◌, true, false, Option, none, some, List, [], ◌∷◌, All}
use bankr_integration.Js.Text.{txt, ◌===◌, lower, trim, is_empty, is_space, starts_with}
use bankr_integration.Js.Number.{finite, pos, is_finite, num_eq}
use bankr_integration.Js.Pattern.{test_whole, hex_prefixed, times, is_hex}
use bankr_integration.Js.Json.{
  Json, undefined, num, str, arr, obj, nil, cons, Fields, end, field, get,
}
use bankr_integration.Fixtures.{stamp_host, options, parsed, unused}
use bankr_integration.Approval.Types.{ApprovalLookup}
use bankr_integration.Approval.Canonical.{
  has_kind, canonical_approval_hash, hmac_signature, signed_by, signature_scheme_for,
  reservation_key,
}
use bankr_integration.Approval.Parse.{
  as_record, is_address, is_hex_data, text_with, has_text, as_number, optional_text,
  optional_amount, seal, common_approval_fields, parse_contract_operation, parse_operation,
  parse_approval, parse_elems, parse_approvals,
}
use bankr_integration.Approval.Own.{IsAimed}
use bankr_integration.Approval.Sealed.{IsSealed, parse_approval-IsSealed, parse_approval-IsAimed}
use bankr_integration.Approval.Lookup.{
  contract, same_kind, kind_of, entries_of, IsGenuineIn, Current, read_approvals, is_active,
  is_wanted, get_approved, get_approved_sound,
}
use bankr_integration.Approval.Usage.{
  returned, Usage, Faults, audit_event, key_of, approval_key, reservation_of, reserve, consume,
}
use bankr_integration.Approval.Replay.{
  Call, reserves, consumes, frees, grants, after, grant_count, granted_once, consumption_is_final,
}

abbrev target : Json
target = str (txt "0xAbababababababababababababababababababab")

abbrev transaction : Fields
transaction =
    field (txt "chainId") (num (finite (pos 8453)))
      (field (txt "to") target (field (txt "data") (str (txt "0x01")) end))

abbrev approval : Fields
approval = field (txt "status") (str (txt "approved")) (
    field (txt "approval_id") (str (txt "a1")) (
      field (txt "passport_id") (str (txt "7")) (
        field (txt "chain_id") (num (finite (pos 8453))) (
          field (txt "human_approval_receipt") (str (txt "r")) (
            field (txt "approval_hash") (str (txt "sha256:h")) (
              field (txt "nonce") (str (txt "n")) (
                field (txt "signature") (str (txt "hmac-sha256:m")) (
                  field (txt "contract") target (
                    field (txt "method") (str (txt "mint")) (
                      field (txt "calldata_hash") (str (txt "c"))
                        (field (txt "transaction") (obj transaction) end)))))))))))

approval_runs : Unit {0}
unfolding txt ◌===◌ lower trim is_empty is_space starts_with is_finite num_eq test_whole
    hex_prefixed times is_hex get has_kind canonical_approval_hash hmac_signature signed_by
    signature_scheme_for as_record is_address is_hex_data text_with has_text as_number optional_text
    optional_amount seal common_approval_fields parse_contract_operation parse_operation
    parse_approval parse_elems parse_approvals read_approvals is_active is_wanted get_approved
approval_runs = tt

approval_parses : parse_approval stamp_host options (obj approval) ≡ some parsed
unfolding approval_runs
approval_parses = refl

parse_approval-IsSealed_example :
    (item : Fields) × (as_record (obj approval) ≡ some item)
    × IsSealed stamp_host options item parsed
parse_approval-IsSealed_example =
    parse_approval-IsSealed stamp_host options (obj approval) {a = parsed} approval_parses

parse_approval-IsAimed_example : IsAimed parsed.chain_id parsed.operation
parse_approval-IsAimed_example =
    parse_approval-IsAimed stamp_host options (obj approval) {a = parsed} approval_parses

abbrev pub file : Option Json
file = some (arr (cons (str (txt "junk")) (cons (obj approval) nil)))

abbrev pub wanted : ApprovalLookup
wanted = record { approval_id = txt "a1"; passport_id = txt "7"; chain_id = finite (pos 8453) }

pub approval_found :
    get_approved stamp_host options contract file wanted (finite (pos 0)) ≡ some parsed
unfolding approval_runs
approval_found = refl

get_approved_sound_example :
    IsGenuineIn stamp_host options (entries_of file) parsed
    × (same_kind (kind_of parsed.operation) contract ≡ true)
    × (parsed.approval_id ≡ txt "a1")
    × (parsed.passport_id ≡ txt "7")
    × (parsed.chain_id ≡ finite (pos 8453))
    × Current stamp_host options (finite (pos 0)) none
get_approved_sound_example =
    get_approved_sound stamp_host options contract file wanted (finite (pos 0)) {a = parsed}
      approval_found

abbrev all_well : Faults
all_well = record {
  mkdir_reserved = false;
  mkdir_consumed = false;
  create_reserved = false;
  unlink_reserved = false;
  rename = false;
  rewrite_consumed = false;
  create_consumed = false;
  append_audit = false;
  message = [];
}

abbrev one_reserve : Call
one_reserve = record {
  operation = reserves parsed (txt "r");
  fault = all_well;
  now = finite (pos 0);
}

abbrev one_consume : Call
one_consume = record {
  operation = consumes (reservation_of stamp_host parsed) undefined;
  fault = all_well;
  now = finite (pos 1);
}

abbrev history : List Call
history = one_reserve ∷ one_reserve ∷ one_consume ∷ one_reserve ∷ []

no_release : All (λ c. frees stamp_host options (txt "h") c ≡ false) history
unfolding frees
no_release = (refl, (refl, (refl, (refl, tt))))

granted_once_example : grant_count stamp_host options (txt "h") unused history ≤ 1
granted_once_example = granted_once stamp_host options (txt "h") unused history no_release

-- The first of the calls is granted.
one_granted : grant_count stamp_host options (txt "h") unused history ≡ 1
unfolding approval_runs reserve consume audit_event key_of approval_key reservation_of grant_count
    grants after reservation_key
one_granted = refl

abbrev after_reserve : Usage
after_reserve = (reserve stamp_host options all_well (finite (pos 0)) parsed (txt "r") unused).1

consumption_returns :
    (consume stamp_host options all_well
      (finite (pos 1))
      (reservation_of stamp_host parsed)
      undefined
      after_reserve).0
    ≡ returned tt
unfolding approval_runs reserve consume audit_event key_of approval_key reservation_of
    reservation_key
consumption_returns = refl

consumption_is_final_example :
    grant_count stamp_host options
      (key_of stamp_host (reservation_of stamp_host parsed))
      (consume stamp_host options all_well
        (finite (pos 1))
        (reservation_of stamp_host parsed)
        undefined
        after_reserve).1
      history
    ≡ 0
consumption_is_final_example =
    consumption_is_final stamp_host options (reservation_of stamp_host parsed) undefined all_well
      (finite (pos 1)) after_reserve history consumption_returns
