-- ===== src/Passport/Updated.antt =====
-- What the updated document gives to a passport that is resolved from it, and when a transaction is
-- executed.
use bankr_integration.Prelude.{
  ◌≡◌, refl, sym, ap, ◌∙◌, subst, arith, Bool, true, false, not, Option, none, some, List, [], ◌∷◌,
  if◌then◌else◌, any,
}
use bankr_integration.Js.Text.{Text, txt, ◌===◌, ===_sound, trim, is_empty, is_space}
use bankr_integration.Js.Number.{whole, is_finite}
use bankr_integration.Js.Json.{Json, str, arr, obj, nil, cons, Fields, get, put}
use bankr_integration.Js.Objects.{get-put, get-put-other, passes, is_str, copy_fields}
use bankr_integration.Js.Host.{Host}
use bankr_integration.Mcp.Session.{CapabilityGrant}
use bankr_integration.Passport.Fields.{
  present, non_empty_string, optional_string_array, optional_string_or_number, optional_boolean,
  optional_chain_id, optional_iso_date, read_date, optional_string, is_positive_integer,
}
use bankr_integration.Passport.Document.{
  grant_of, parse_capability_grant, all_grants, parse_capability_grants,
}
use bankr_integration.Passport.Update.{
  read_only_policy, read_capability, read_grant, is_dangerous, grant_array, grant_issues, issues_of,
  grants_in, validate_expiry, document_issues, ReadOnlyGrantInput, ReadOnlyGrantResult, result_of,
  issue_if, is_number, is_other_policy, with_expiry, or_read_only, objects_of, expires_after,
  passport_matches, built, refused, new_grant, new_document, build_read_only_grant_document,
}

-- The grant that a resolver reads in the new document.
abbrev pub expected_grant : Option Text → CapabilityGrant
expected_grant expires_at = record {
  capability = read_capability;
  chain_id = some (whole 8453);
  allowed_recipients = none;
  allowed_assets = none;
  allowed_contracts = none;
  allowed_methods = none;
  max_per_call = none;
  max_per_day = none;
  requires_human = none;
  expires_at = expires_at;
  policy_hash = some read_only_policy;
}

not-false : (b : Bool) → not b ≡ false → b ≡ true
not-false b h = ground arith

module _ (host : Host) where
  built-inj : {d d' : Fields} {b b' a a' : Text} → built d b a ≡ built d' b' a' → d ≡ d'
  built-inj h = cc

  result_of-built :
      (made : Fields) (issues : List Text) (b : Text) {document : Fields} {before after : Text}
      → result_of host made issues b ≡ built document before after
      → (made ≡ document) × (issues ≡ [])
  unfolding result_of
  result_of-built made [] b h = (built-inj h, refl)
  result_of-built made (i ∷ is) b h = cc

  unrefused :
      (c : Bool) (r : Text) (is : List Text) (b : Text) (rest : ReadOnlyGrantResult)
      {document : Fields} {before after : Text}
      → (if c then refused r is b else rest) ≡ built document before after
      → rest ≡ built document before after
  unrefused true r is b rest h = cc
  unrefused false r is b rest h = h

  -- Only a document without issues is built.
  built-new_document :
      (input : ReadOnlyGrantInput) (document : Fields) (before after : Text)
      → build_read_only_grant_document host input ≡ built document before after
      → (new_document host input ≡ document)
        × (document_issues host (new_document host input) none ≡ [])
  unfolding build_read_only_grant_document
  built-new_document input document before after h = result_of-built (new_document host input) _ _ (
      unrefused (not (passport_matches host input.current_document input.passport_id)) _ _ _ _
        (unrefused (any is_dangerous (grant_array input.current_document)) _ _ _ _ h))

  new_document-grants :
      (input : ReadOnlyGrantInput)
      → get (txt "capability_grants") (new_document host input)
        ≡ arr (cons (obj (new_grant host input)) nil)
  unfolding new_document
  new_document-grants input = get-put (txt "capability_grants") _ _

  new_document-issues :
      (input : ReadOnlyGrantInput)
      → document_issues host (new_document host input) none
        ≡ grant_issues host (new_grant host input) none
  unfolding document_issues grant_array grants_in objects_of issues_of
  new_document-issues input =
      ap (λ v. issues_of host (grants_in v) none) (new_document-grants input)

  no_issue : (c : Bool) (i : Text) (is : List Text) → issue_if c i is ≡ [] → (c ≡ false) × (is ≡ [])
  unfolding issue_if
  no_issue true i is h = cc
  no_issue false i is h = (refl, h)

  -- A grant without issues has the policy of the program and an expiry that is a date.
  grant_without_issues :
      (g : Fields)
      → grant_issues host g none ≡ []
      → (is_other_policy (get (txt "policy_hash") g) ≡ false)
        × (validate_expiry host (get (txt "expires_at") g) none ≡ true)
  unfolding grant_issues
  grant_without_issues g n =
      let (_, n) = no_issue (not (is_str read_capability (get (txt "capability") g))) _ _ n in
      let (_, n) = no_issue (not (is_number (get (txt "chain_id") g))) _ _ n in
      let (_, n) = no_issue (is_dangerous g) _ _ n in
      let (p, n) = no_issue (is_other_policy (get (txt "policy_hash") g)) _ _ n in
      let (x, _) = no_issue (not (validate_expiry host (get (txt "expires_at") g) none)) _ _ n in
      (p, not-false _ x)

  -- The expiry that the grant gets.
  abbrev pub given : Option Text → Option Text
  given none = none
  given (some t) = if is_empty t then none else some t

  policy_is : (h : Text) → is_other_policy (str h) ≡ false → h ≡ read_only_policy
  unfolding is_other_policy is_str
  policy_is h e = ===_sound h read_only_policy (not-false _ e)

  date_of :
      (t : Text)
      → validate_expiry host (str t) none ≡ true
      → (is_empty (trim t) ≡ false) × (is_finite (host.parse_date t) ≡ true)
  unfolding validate_expiry expires_after
  date_of t e = ground (arith, e)

  resolver_runs : Unit {0}
  unfolding parse_capability_grant grant_of get put txt ◌===◌ non_empty_string trim is_empty
      is_space optional_string_array optional_string_or_number optional_boolean optional_chain_id
      optional_string is_positive_integer whole
  resolver_runs = tt

  resolved_without_expiry :
      parse_capability_grant host (obj (put (txt "policy_hash") (str read_only_policy) read_grant))
      ≡ some (expected_grant none)
  unfolding resolver_runs optional_iso_date
  resolved_without_expiry = refl

  iso_date :
      (t : Text)
      → trim t ≡ t
      → is_empty (trim t) ≡ false
      → is_finite (host.parse_date t) ≡ true
      → optional_iso_date host (str t) ≡ present t
  unfolding optional_iso_date non_empty_string read_date
  iso_date t same filled date = rw (filled, same, date) refl

  resolved_until :
      (t : Text)
      → optional_iso_date host (str t) ≡ present t
      → parse_capability_grant host (
          obj (
            put
              (txt "policy_hash")
              (str read_only_policy)
              (put (txt "expires_at") (str t) read_grant)))
        ≡ some (expected_grant (some t))
  unfolding resolver_runs
  resolved_until t date = rw date refl

  -- A grant of the program, with an expiry or without one.
  abbrev made : Text → Fields → Json
  made h g = obj (put (txt "policy_hash") (str h) g)

  made-policy :
      (h : Text) (g : Fields)
      → grant_issues host (put (txt "policy_hash") (str h) g) none ≡ []
      → h ≡ read_only_policy
  made-policy h g n = policy_is h (
      subst (λ v. is_other_policy v ≡ false) (get-put (txt "policy_hash") (str h) g)
        (grant_without_issues (put (txt "policy_hash") (str h) g) n).0)

  made-date :
      (h t : Text)
      → grant_issues host
          (put (txt "policy_hash") (str h) (put (txt "expires_at") (str t) read_grant))
          none
        ≡ []
      → (is_empty (trim t) ≡ false) × (is_finite (host.parse_date t) ≡ true)
  unfolding ◌===◌ txt
  made-date h t n = date_of t (
      subst (λ v. validate_expiry host v none ≡ true)
        (passes (txt "expires_at") (txt "policy_hash") (str h)
          (put (txt "expires_at") (str t) read_grant) refl
          (get-put (txt "expires_at") (str t) read_grant))
        (grant_without_issues
          (put (txt "policy_hash") (str h) (put (txt "expires_at") (str t) read_grant)) n).1)

  resolved_plain :
      (h : Text)
      → grant_issues host (put (txt "policy_hash") (str h) read_grant) none ≡ []
      → parse_capability_grant host (made h read_grant) ≡ some (expected_grant none)
  resolved_plain h n =
      ap (λ x. parse_capability_grant host (made x read_grant)) (made-policy h read_grant n)
      ∙ resolved_without_expiry

  resolved_by :
      (b : Bool) (h t : Text)
      → trim t ≡ t
      → grant_issues host
          (put
            (txt "policy_hash")
            (str h)
            (if b then read_grant else put (txt "expires_at") (str t) read_grant))
          none
        ≡ []
      → parse_capability_grant host
          (made h (if b then read_grant else put (txt "expires_at") (str t) read_grant))
        ≡ some (expected_grant (if b then none else some t))
  resolved_by true h t same n = resolved_plain h n
  resolved_by false h t same n =
      let (filled, date) = made-date h t n in
      ap (λ x. parse_capability_grant host (made x (put (txt "expires_at") (str t) read_grant)))
        (made-policy h (put (txt "expires_at") (str t) read_grant) n)
      ∙ resolved_until t (iso_date t same filled date)

  resolved_new :
      (e : Option Text) (h : Text)
      → ((t : Text) → e ≡ some t → trim t ≡ t)
      → grant_issues host (put (txt "policy_hash") (str h) (with_expiry host e read_grant)) none
        ≡ []
      → parse_capability_grant host (made h (with_expiry host e read_grant))
        ≡ some (expected_grant (given e))
  unfolding with_expiry
  resolved_new none h same n = resolved_plain h n
  resolved_new (some t) h same n = resolved_by (is_empty t) h t (same t refl) n

  module _ (input : ReadOnlyGrantInput) (document : Fields) (before after : Text) where
    -- Where the expiry that is asked for, if any, has no blanks at its ends: when the document with
    -- the read-only grant is built, the passport resolver reads in it exactly one grant, to read
    -- the wallet on chain 8453, under the program's policy hash, with that expiry and no other
    -- restriction or permission.
    pub build_read_only_grant_document-parse :
        build_read_only_grant_document host input ≡ built document before after
        → ((t : Text) → input.expires_at ≡ some t → trim t ≡ t)
        → parse_capability_grants host (get (txt "capability_grants") document)
          ≡ some (some (expected_grant (given input.expires_at) ∷ []))
    unfolding parse_capability_grants all_grants new_grant
    build_read_only_grant_document-parse h same =
        let (made, issues) = built-new_document input document before after h in
        let parsed =
          resolved_new input.expires_at (or_read_only host input.policy_hash) same
            (sym (new_document-issues input) ∙ issues) in
        subst
          (λ d.
            parse_capability_grants host (get (txt "capability_grants") d)
            ≡ some (some (expected_grant (given input.expires_at) ∷ [])))
          made (ap (parse_capability_grants host) (new_document-grants input) ∙ rw parsed refl)

    -- When the document with the read-only grant is built, every property of it but the grants and
    -- the passport's id is that of the copy of the old document.
    pub build_read_only_grant_document-keeps :
        (k : Text)
        → build_read_only_grant_document host input ≡ built document before after
        → (txt "capability_grants" === k) ≡ false
        → (txt "passport_id" === k) ≡ false
        → get k document ≡ get k (copy_fields input.current_document)
    unfolding new_document
    build_read_only_grant_document-keeps k h grants id =
        let (made, _) = built-new_document input document before after h in
        ap (get k) (sym made)
        ∙ passes k (txt "capability_grants") _ _ grants (get-put-other k (txt "passport_id") _ _ id)
