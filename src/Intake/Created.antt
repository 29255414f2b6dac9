-- ===== src/Intake/Created.antt =====
-- What is created, and that it is then listed.
use bankr_integration.Prelude.{
  ◌≡◌, refl, sym, ap, ◌∙◌, subst, ◌≤◌, Bool, true, false, ◌||◌, Option, none, some, List, [], ◌∷◌,
  ◌++◌, if◌then◌else◌, some_inj, transfer_some, length,
}
use bankr_integration.Js.Text.{Text, txt, lower, lower_idem, trim, is_empty, is_space}
use bankr_integration.Js.Json.{str, obj}
use bankr_integration.Js.Host.{Host}
use bankr_integration.Approval.Usage.{Outcome, returned, threw}
use bankr_integration.Intake.Requests.{
  IntakeKind, council_plan, council_audit, workshop_brief, workshop_reproduction, workshop_build,
  IntakeRequest, request_fields, clean_optional_string, commitment_of, public_safe_request,
}
use bankr_integration.Intake.Ledger.{
  safe_wallet, clean_string, is_council, boundary_of, IntakeInput, some_text, LedgerFile,
  brief_commitment_of, new_receipt, new_request, store_request, load_requests, list_intake_requests,
  create_keyed, create_for, create_intake_request,
}
use bankr_integration.Intake.Listing.{IsClean, IsCleanOption, request_read, store_request-last}

kept : (c : Bool) (x : Text) {w : Text} → (if c then some x else none) ≡ some w → x ≡ w
kept true x h = some_inj h
kept false x h = cc

safe_wallet-lower : (v w : Text) → safe_wallet v ≡ some w → lower w ≡ w
unfolding safe_wallet
safe_wallet-lower v w h = let e = kept _ (lower v) h in ap lower (sym e) ∙ lower_idem v ∙ e

boundary_of-IsClean : (k : IntakeKind) → IsClean (boundary_of k)
unfolding boundary_of is_council txt clean_optional_string trim is_empty is_space
boundary_of-IsClean council_plan = refl
boundary_of-IsClean council_audit = refl
boundary_of-IsClean workshop_brief = refl
boundary_of-IsClean workshop_reproduction = refl
boundary_of-IsClean workshop_build = refl

module _ (host : Host) (uuid now : Text) (input : IntakeInput) (file : LedgerFile) where
  -- A request that was created, and what was stored.
  abbrev IsCreated : Text → Option Text → IntakeRequest → LedgerFile → Type 0
  IsCreated wallet secret r file' =
      (key : Text) × (secret ≡ some key)
      × (r ≡ new_request host key (txt "intake_" ++ uuid) wallet input now)
      × (file' ≡ store_request host r file)

  refuses :
      {m : Text} {f f' : LedgerFile} {r : IntakeRequest}
      → ¬ (◌≡◌ {A = Outcome IntakeRequest × LedgerFile} (threw m, f) (returned r, f'))
  refuses {m} {f} {f'} {r} h =
      let e : threw m ≡ returned r = ap (λ (x : Outcome IntakeRequest × LedgerFile). x.0) h in cc

  answered :
      (c : Bool) (m : Text) (rest : Outcome IntakeRequest × LedgerFile) {r : IntakeRequest}
      {f : LedgerFile}
      → (if c then (threw m, file) else rest) ≡ (returned r, f)
      → rest ≡ (returned r, f)
  answered true m rest h = absurd (refuses h)
  answered false m rest h = h

  returned_inj : {q r : IntakeRequest} → returned q ≡ returned r → q ≡ r
  returned_inj h = cc

  create_keyed-IsCreated :
      (secret : Option Text) (wallet : Text) (r : IntakeRequest) (file' : LedgerFile)
      → create_keyed host uuid now input file secret wallet ≡ (returned r, file')
      → IsCreated wallet secret r file'
  unfolding create_keyed
  create_keyed-IsCreated none wallet r file' h = absurd (refuses h)
  create_keyed-IsCreated (some key) wallet r file' h =
      let e = answered (is_empty key) _ _ h in
      let r_is = returned_inj (ap (λ (x : Outcome IntakeRequest × LedgerFile). x.0) e) in
      (
        key,
        refl,
        sym r_is,
        sym (ap (λ (x : Outcome IntakeRequest × LedgerFile). x.1) e)
            ∙ ap (λ x. store_request host x file) r_is,
      )

  create_for-IsCreated :
      (secret safe : Option Text) (r : IntakeRequest) (file' : LedgerFile)
      → create_for host uuid now input file secret safe ≡ (returned r, file')
      → (wallet : Text) × (safe ≡ some wallet) × IsCreated wallet secret r file'
  unfolding create_for
  create_for-IsCreated secret none r file' h = absurd (refuses h)
  create_for-IsCreated secret (some wallet) r file' h = (
    wallet,
    refl,
    create_keyed-IsCreated secret wallet r file' (
        answered
          (is_empty (clean_string 160 input.title) || is_empty (clean_string 4000 input.brief)) _ _
          h),
  )

  -- A new request, where its texts are clean, is read as it is.
  new_request-read :
      (key wallet : Text)
      → lower wallet ≡ wallet
      → IsClean (clean_string 160 input.title)
      → IsCleanOption (some_text (clean_string 500 input.target))
      → IsClean now
      → ((s : Text) → commitment_of (str (host.hmac_hex key s)) ≡ some (host.hmac_hex key s))
      → let r = new_request host key (txt "intake_" ++ uuid) wallet input now in
        public_safe_request host wallet (obj (request_fields r)) ≡ some r
  unfolding new_request new_receipt txt brief_commitment_of is_empty
  new_request-read key wallet w t g a digest =
      request_read host (txt "intake_" ++ uuid) wallet (clean_string 160 input.title) now _
        (boundary_of input.kind) input.kind _ w t a (digest _) (boundary_of-IsClean input.kind) _ g
        refl

  listed :
      (v w : Text) (f : LedgerFile)
      → safe_wallet v ≡ some w
      → list_intake_requests host v f ≡ load_requests host w f
  unfolding list_intake_requests
  listed v w f h = rw (list_intake_requests, h) refl

  -- Where the digest of the host is 64 lower-case hexadecimal digits, the time prints without
  -- blanks at its ends, and neither the cut title nor the cut target ends in a blank: a request
  -- that is created is the last that its wallet then lists, unchanged with its receipt and digest,
  -- after at most 199 others, whatever the ledger held.
  pub create_intake_request-listed :
      (key : Text) (r : IntakeRequest) (file' : LedgerFile)
      → create_intake_request host uuid now input file (some key) ≡ (returned r, file')
      → IsClean (clean_string 160 input.title)
      → IsCleanOption (some_text (clean_string 500 input.target))
      → IsClean now
      → ((s : Text) → commitment_of (str (host.hmac_hex key s)) ≡ some (host.hmac_hex key s))
      → (earlier : List IntakeRequest) × (list_intake_requests host input.wallet file'
          ≡ returned (earlier ++ (r ∷ [])))
        × (length earlier ≤ 199)
  unfolding create_intake_request new_request
  create_intake_request-listed key r file' h t g a digest =
      let (wallet, safe, (k, secret, made, stores)) =
        create_for-IsCreated (some key) (safe_wallet input.wallet) r file' h in
      let w = safe_wallet-lower input.wallet wallet safe in
      let d =
        transfer_some
          (λ x. (s : Text) → commitment_of (str (host.hmac_hex x s)) ≡ some (host.hmac_hex x s))
          secret digest in
      let read = new_request-read k wallet w t g a d in
      let (earlier, e, few) =
        store_request-last host wallet r file (ap (λ (x : IntakeRequest). x.wallet) made) (
          subst (λ x. public_safe_request host wallet (obj (request_fields x)) ≡ some x) (sym made)
            read) in
      (
        earlier,
        listed input.wallet wallet file' safe ∙ ap (load_requests host wallet) stores ∙ e,
        few,
      )
