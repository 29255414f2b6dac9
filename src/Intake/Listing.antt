-- ===== src/Intake/Listing.antt =====
-- A request that was created is read back from the ledger.
use bankr_integration.Prelude.{
  ◌≡◌, refl, ap, ◌∙◌, arith, ℕ, zero, suc, ◌-◌, ◌≤◌, true, false, Option, none, some, List, [], ◌∷◌,
  ◌++◌, if◌then◌else◌, Option-cases, inl, inr, length, length-append, length-drop, drop,
}
use bankr_integration.Js.Text.{Text, txt, ◌===◌, ===_refl, lower, is_empty}
use bankr_integration.Js.Json.{undefined, str, obj, get}
use bankr_integration.Js.Objects.{is_str}
use bankr_integration.Js.Host.{Host}
use bankr_integration.Approval.Usage.{returned}
use bankr_integration.Intake.Requests.{
  IntakeKind, council_plan, council_audit, workshop_brief, workshop_reproduction, workshop_build,
  kind_name, kind_named, kind_of, Slot, intake_queue_slot, workshop_intake_slot, slot_name,
  IntakeReceipt, IntakeRequest, optional_field, receipt_fields, request_fields, hash_receipt,
  clean_optional_string, or_else_text, or_else_option, string_or, lower_or, commitment_of, Fallback,
  kind_or, public_safe_receipt, public_safe_request,
}
use bankr_integration.Intake.Ledger.{
  LedgerFile, json_of, add_safe, safe_requests, stored, store_request, load_requests,
}

kind_of-name : (k : IntakeKind) → kind_of (str (kind_name k)) ≡ some k
unfolding kind_of kind_named kind_name txt ◌===◌
kind_of-name council_plan = refl
kind_of-name council_audit = refl
kind_of-name workshop_brief = refl
kind_of-name workshop_reproduction = refl
kind_of-name workshop_build = refl

-- A text that reading leaves as it is.
abbrev pub IsClean : Text → Type 0
IsClean s = clean_optional_string (str s) ≡ some s

abbrev pub IsCleanOption : Option Text → Type 0
IsCleanOption none = Unit
IsCleanOption (some t) = IsClean t

slot_read :
    (s : Slot)
    → (if is_str (txt "workshop_intake_slot") (str (slot_name s))
        then workshop_intake_slot
        else intake_queue_slot)
      ≡ s
unfolding is_str slot_name txt ◌===◌
slot_read intake_queue_slot = refl
slot_read workshop_intake_slot = refl

request_reads : Unit {0}
unfolding public_safe_request request_fields optional_field get txt ◌===◌ is_str lower_or string_or
request_reads = tt

reads : Unit {0}
unfolding public_safe_receipt receipt_fields optional_field get txt ◌===◌ is_str lower_or string_or
    or_else_text or_else_option kind_or
reads = tt

no_text : clean_optional_string undefined ≡ none
unfolding clean_optional_string
no_text = refl

-- A request of a ledger, as it is made.
module _ (host : Host) (id wallet title created_at c boundary : Text) (kind : IntakeKind)
    (slot : Slot) (w : lower wallet ≡ wallet) (t : IsClean title) (a : IsClean created_at)
    (h : commitment_of (str c) ≡ some c) (b : IsClean boundary) where
  abbrev fallback : Option Text → Fallback
  fallback target = record {
    id = id;
    kind = kind;
    wallet = wallet;
    title = title;
    target = target;
    created_at = created_at;
  }

  abbrev receipt_of : Option Text → IntakeReceipt
  receipt_of target = record {
    request_id = id;
    kind = kind;
    wallet = wallet;
    title = title;
    target = target;
    brief_commitment = some c;
    has_scheme = true;
    created_at = created_at;
    purchased = slot;
    boundary = boundary;
  }

  receipt_read :
      (target : Option Text)
      → IsCleanOption target
      → public_safe_receipt (fallback target) (obj (receipt_fields (receipt_of target)))
        ≡ some (receipt_of target)
  unfolding reads
  receipt_read none g =
      rw (w, ===_refl wallet, ===_refl id, kind_of-name kind, t, a, h, b, slot_read slot, no_text)
        refl
  receipt_read (some u) g =
      rw (w, ===_refl wallet, ===_refl id, kind_of-name kind, t, g, a, h, b, slot_read slot) refl

  abbrev request_of : Option Text → IntakeRequest
  request_of target = record {
    id = id;
    kind = kind;
    wallet = wallet;
    title = title;
    target = target;
    created_at = created_at;
    receipt = receipt_of target;
    receipt_sha256 = hash_receipt host (receipt_of target);
  }

  pub request_read :
      (target : Option Text)
      → IsCleanOption target
      → is_empty id ≡ false
      → public_safe_request host wallet (obj (request_fields (request_of target)))
        ≡ some (request_of target)
  unfolding request_reads
  request_read none g n =
      rw (w, ===_refl wallet, n, kind_of-name kind, t, a, no_text, receipt_read none g) refl
  request_read (some u) g n =
      rw (w, ===_refl wallet, n, kind_of-name kind, t, a, g, receipt_read (some u) g) refl

drop-append {ℓ} :
    {A : Type ℓ} (n : ℕ) (xs ys : List A) → n ≤ length xs → drop n (xs ++ ys) ≡ drop n xs ++ ys
drop-append zero xs ys h = refl
drop-append (suc n) [] ys h = ground arith
drop-append (suc n) (x ∷ xs) ys h = drop-append n xs ys (omega (arith, h))

module _ (host : Host) (wallet : Text) where
  -- A ledger whose last entry reads as a request is read with that request last.
  safe_requests-last :
      (rs : List IntakeRequest) (r : IntakeRequest)
      → public_safe_request host wallet (obj (request_fields r)) ≡ some r
      → (earlier : List IntakeRequest) × (safe_requests host wallet (json_of (rs ++ (r ∷ [])))
          ≡ earlier ++ (r ∷ []))
        × (length earlier ≤ length rs)
  unfolding safe_requests add_safe json_of
  safe_requests-last [] r h = ([], ap (λ o. add_safe o []) h, omega arith)
  safe_requests-last (q ∷ rs) r h =
      let (earlier, e, few) = safe_requests-last rs r h in
      elim (Option-cases (public_safe_request host wallet (obj (request_fields q)))) [
        | inl n ↦ (earlier, rw n e, omega (arith, few))
        | inr (p, n) ↦ (p ∷ earlier, rw n (ap (λ l. p ∷ l) e), omega (arith, few))
      ]

  -- What a store leaves in the ledger, of which no more than 199 entries are older.
  pub store_request-last :
      (r : IntakeRequest) (file : LedgerFile)
      → r.wallet ≡ wallet
      → public_safe_request host wallet (obj (request_fields r)) ≡ some r
      → (earlier : List IntakeRequest) × (load_requests host wallet (store_request host r file)
          ≡ returned (earlier ++ (r ∷ [])))
        × (length earlier ≤ 199)
  unfolding store_request load_requests stored
  store_request-last r file w h =
      let old = stored host r.wallet file in
      let n = length (old ++ (r ∷ [])) - 200 in
      let (earlier, e, few) = safe_requests-last (drop n old) r h in
      (
        earlier,
        ap (λ l. returned (safe_requests host wallet (json_of l)))
              (drop-append n old (r ∷ []) (omega (arith, length-append old (r ∷ []))))
            ∙ ap returned e,
        omega (arith, few, length-drop n old, length-append old (r ∷ [])),
      )
