-- ===== src/Intake/Ledger.antt =====
-- Creating a request, and the ledger of a wallet: the file that it is stored in and read from. The lock
-- around the ledger is left out: a store is one step.
use bankr_integration.Prelude.{
  ℕ, Bool, true, false, ◌||◌, Option, none, some, List, [], ◌∷◌, ◌++◌, if◌then◌else◌, take, length,
  drop, ◌-◌,
}
use bankr_integration.Js.Text.{Text, txt, lower, trim, is_empty}
use bankr_integration.Js.Pattern.{test_whole, hex_prefixed, times, one, is_lower_hex}
use bankr_integration.Js.Json.{Json, str, arr, obj, Elems, nil, cons, end, field, stringify}
use bankr_integration.Js.Host.{Host}
use bankr_integration.Approval.Usage.{Outcome, returned, threw}
use bankr_integration.Intake.Requests.{
  IntakeKind, council_plan, council_audit, kind_name, intake_queue_slot, workshop_intake_slot,
  IntakeReceipt, IntakeRequest, request_fields, hash_receipt, public_safe_request,
}

-- `safeWallet`, as what is not refused.
unfoldable pub safe_wallet : Text → Option Text
safe_wallet wallet =
    if test_whole (hex_prefixed (times 40 (one is_lower_hex))) (lower wallet)
    then some (lower wallet)
    else none

-- `cleanString(value, max)`
abbrev pub clean_string : ℕ → Json → Text
clean_string max (str s) = take max (trim s)
clean_string max v = []

unfoldable pub is_council : IntakeKind → Bool
is_council council_plan = true
is_council council_audit = true
is_council k = false

unfoldable pub boundary_of : IntakeKind → Text
boundary_of kind =
    let witness =
      txt
        " Receipt exposes a server-keyed commitment to the brief; no public unsalted brief hash, raw brief, or private text is exposed." in
    if is_council kind
    then txt
        "Payment/staking buys Council intake and queue access only; it does not buy verdict, truth, pass, safety clearance, Council outcome, Scripture interpretation, agent authority, or reputation."
      ++ witness
    else txt
        "Payment/staking buys Workshop intake and queue access only; it does not buy result, truth, implementation success, safety clearance, acceptance, Scripture interpretation, agent authority, or reputation."
      ++ witness

pub record IntakeInput : Type 0 where
  pub wallet : Text
  pub kind : IntakeKind
  pub title : Json
  pub brief : Json
  pub target : Json

unfoldable pub some_text : Text → Option Text
some_text [] = none
some_text (c ∷ s) = some (c ∷ s)

-- What the ledger's file holds.
pub data LedgerFile : Type 0 where
  missing unreadable : LedgerFile
  holds : Json → LedgerFile

unfoldable pub json_of : List IntakeRequest → Elems
json_of [] = nil
json_of (r ∷ rs) = cons (obj (request_fields r)) (json_of rs)

unfoldable pub add_safe : Option IntakeRequest → List IntakeRequest → List IntakeRequest
add_safe none rest = rest
add_safe (some r) rest = r ∷ rest

module _ (host : Host) where
  -- `briefCommitment`
  unfoldable pub brief_commitment_of : Text → Text → Text → IntakeKind → Text → Text
  brief_commitment_of secret id wallet kind brief = host.hmac_hex secret (
      stringify host (
        obj (
          field (txt "request_id") (str id) (
            field (txt "wallet") (str wallet)
              (field (txt "kind") (str (kind_name kind)) (field (txt "brief") (str brief) end))))))

  unfoldable pub new_receipt : Text → Text → Text → IntakeInput → Text → IntakeReceipt
  unfolding some_text
  new_receipt secret id wallet input now = record {
    request_id = id;
    kind = input.kind;
    wallet = wallet;
    title = clean_string 160 input.title;
    target = some_text (clean_string 500 input.target);
    brief_commitment =
        some (brief_commitment_of secret id wallet input.kind (clean_string 4000 input.brief));
    has_scheme = true;
    created_at = now;
    purchased = if is_council input.kind then intake_queue_slot else workshop_intake_slot;
    boundary = boundary_of input.kind;
  }

  unfoldable pub new_request : Text → Text → Text → IntakeInput → Text → IntakeRequest
  new_request secret id wallet input now =
      let receipt : IntakeReceipt = new_receipt secret id wallet input now in
      record {
        id = id;
        kind = input.kind;
        wallet = wallet;
        title = receipt.title;
        target = receipt.target;
        created_at = now;
        receipt = receipt;
        receipt_sha256 = hash_receipt host receipt;
      }

  -- The entries of a ledger that are safe to show.
  unfoldable pub safe_requests : Text → Elems → List IntakeRequest
  unfolding add_safe
  safe_requests wallet nil = []
  safe_requests wallet (cons v vs) =
      add_safe (public_safe_request host wallet v) (safe_requests wallet vs)

  -- What `storeRequest` reads; a file that cannot be read counts as empty.
  unfoldable pub stored : Text → LedgerFile → List IntakeRequest
  stored wallet (holds (arr xs)) = safe_requests wallet xs
  stored wallet file = []

  -- `storeRequest`
  unfoldable pub store_request : IntakeRequest → LedgerFile → LedgerFile
  unfolding json_of
  store_request r file =
      let requests = stored r.wallet file ++ (r ∷ []) in
      holds (arr (json_of (drop (length requests - 200) requests)))

  -- `loadWalletRequests`, of a wallet that is safe; a file that is not JSON throws.
  unfoldable pub load_requests : Text → LedgerFile → Outcome (List IntakeRequest)
  load_requests wallet unreadable = threw (txt "intake ledger unreadable")
  load_requests wallet file = returned (stored wallet file)

  -- `listIntakeRequests`
  unfoldable pub list_intake_requests : Text → LedgerFile → Outcome (List IntakeRequest)
  list_intake_requests wallet file = elim (safe_wallet wallet) [
    | none ↦ threw (txt "invalid wallet")
    | some w ↦ load_requests w file
  ]

  module _ (uuid now : Text) (input : IntakeInput) (file : LedgerFile) where
    unfoldable pub create_keyed : Option Text → Text → Outcome IntakeRequest × LedgerFile
    create_keyed none wallet = (threw (txt "intake receipt secret missing"), file)
    create_keyed (some key) wallet =
        let r = new_request key (txt "intake_" ++ uuid) wallet input now in
        if is_empty key
        then (threw (txt "intake receipt secret missing"), file)
        else (returned r, store_request r file)

    unfoldable pub create_for : Option Text → Option Text → Outcome IntakeRequest × LedgerFile
    create_for secret none = (threw (txt "invalid wallet"), file)
    create_for secret (some wallet) =
        if is_empty (clean_string 160 input.title) || is_empty (clean_string 4000 input.brief)
        then (threw (txt "title and brief required"), file)
        else create_keyed secret wallet

    -- `createIntakeRequest`, with the secret, the fresh id and the time; what it stores the request in.
    unfoldable pub create_intake_request : Option Text → Outcome IntakeRequest × LedgerFile
    create_intake_request secret = create_for secret (safe_wallet input.wallet)
