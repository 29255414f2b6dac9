-- ===== src/Passport/Document.antt =====
-- The document of a passport, its grants, and the resolution of a passport through the client of the
-- registry, whose answers are an argument.
use bankr_integration.Prelude.{
  Bool, true, false, not, ◌&&◌, ◌||◌, Option, none, some, List, [], ◌∷◌, ◌>>=◌, ◌>>◌, guard,
}
use bankr_integration.Js.Text.{Text, txt, ◌===◌, trim, is_empty}
use bankr_integration.Js.Json.{Json, undefined, arr, obj, Elems, nil, cons, Fields, get}
use bankr_integration.Js.Host.{Host}
use bankr_integration.Approval.Usage.{Outcome, returned, threw}
use bankr_integration.Mcp.Session.{CapabilityGrant, BaseMcpPassport}
use bankr_integration.Passport.Fields.{
  Read, absent, invalid, present, normalized, same_wallet, verified_wallet, non_empty_string,
  string_array, optional_string_array, optional_string_or_number, optional_boolean,
  optional_chain_id, optional_iso_date, optional_string, registration_agent_id_matches,
}

-- What a reader gives to a chain that stops at an invalid field.
abbrev pub valid {ℓ} : {A : Type ℓ} → Read A → Option (Option A)
valid absent = some none
valid invalid = none
valid (present a) = some (some a)

module _ (host : Host) where
  unfoldable pub grant_of : Fields → Text → Option CapabilityGrant
  grant_of record_ capability =
      valid (optional_chain_id (get (txt "chain_id") record_)) >>= λ chain_id.
      valid (optional_string_array (get (txt "allowed_recipients") record_))
      >>= λ allowed_recipients.
          valid (optional_string_array (get (txt "allowed_contracts") record_))
          >>= λ allowed_contracts.
              valid (optional_string_array (get (txt "allowed_methods") record_))
              >>= λ allowed_methods.
                  valid (optional_string_or_number (get (txt "max_per_call") record_))
                  >>= λ max_per_call.
                      valid (optional_string_or_number (get (txt "max_per_day") record_))
                      >>= λ max_per_day.
                          valid (optional_boolean (get (txt "requires_human") record_))
                          >>= λ requires_human.
                              valid (optional_iso_date host (get (txt "expires_at") record_))
                              >>= λ expires_at.
                                  valid (optional_string (get (txt "policy_hash") record_))
                                  >>= λ policy_hash. some (record {
                                    capability = capability;
                                    chain_id = chain_id;
                                    allowed_recipients = allowed_recipients;
                                    allowed_assets = none;
                                    allowed_contracts = allowed_contracts;
                                    allowed_methods = allowed_methods;
                                    max_per_call = max_per_call;
                                    max_per_day = max_per_day;
                                    requires_human = requires_human;
                                    expires_at = expires_at;
                                    policy_hash = policy_hash;
                                  })

  -- `parseCapabilityGrant`
  unfoldable pub parse_capability_grant : Json → Option CapabilityGrant
  unfolding grant_of
  parse_capability_grant (obj fs) =
      non_empty_string (get (txt "capability") fs) >>= λ capability. grant_of fs capability
  parse_capability_grant v = none

  unfoldable pub all_grants : Elems → Option (List CapabilityGrant)
  all_grants nil = some []
  all_grants (cons v vs) =
      parse_capability_grant v >>= λ grant. all_grants vs >>= λ grants. some (grant ∷ grants)

  -- `parseCapabilityGrants`
  unfoldable pub parse_capability_grants : Json → Option (Option (List CapabilityGrant))
  parse_capability_grants undefined = some none
  parse_capability_grants (arr xs) = all_grants xs >>= λ grants. some (some grants)
  parse_capability_grants v = none

  module _ (registry : Option Text) where
    -- An empty expected registry counts as none.
    registry_matches : Option Text → Bool
    registry_matches none = false
    registry_matches (some r) = elim registry [
      | none ↦ true
      | some e ↦ is_empty e || normalized r === normalized e
    ]

    unfoldable pub registration_matches : Json → Text → Bool
    unfolding registry_matches
    registration_matches (obj fs) passport_id =
        registration_agent_id_matches host (get (txt "agentId") fs) passport_id
        && registry_matches (non_empty_string (get (txt "agentRegistry") fs))
    registration_matches v passport_id = false

    any_matches : Elems → Text → Bool
    any_matches nil passport_id = false
    any_matches (cons v vs) passport_id =
        registration_matches v passport_id || any_matches vs passport_id

    -- `hasMatchingRegistration`
    unfoldable pub has_matching_registration : Json → Text → Bool
    unfolding any_matches
    has_matching_registration (arr xs) passport_id = any_matches xs passport_id
    has_matching_registration v passport_id = false

    has_entries : Json → Bool
    has_entries (arr (cons v vs)) = true
    has_entries v = false

    -- The document claims the passport: by its id, by a registration, and by neither wrongly.
    unfoldable pub claims_passport : Fields → Text → Bool
    unfolding has_entries
    claims_passport fs passport_id =
        let matched = has_matching_registration (get (txt "registrations") fs) passport_id in
        (elim (non_empty_string (get (txt "passport_id") fs)) [
          | none ↦ matched
          | some claimed ↦ claimed === passport_id
        ])
        && (not (has_entries (get (txt "registrations") fs)) || matched)

    -- The wallets that the document states are the owner's and the agent's.
    unfoldable pub states_wallets : Fields → Text → Option Text → Bool
    states_wallets fs wallet agent_wallet =
        let expected : Option Text = elim agent_wallet [
          | some w ↦ some w
          | none ↦ verified_wallet (some wallet)
        ] in
        (elim (non_empty_string (get (txt "owner_wallet") fs)) [
          | none ↦ true
          | some owner ↦ same_wallet (some owner) wallet
        ])
        && (elim (non_empty_string (get (txt "agent_wallet") fs)) [
          | none ↦ true
          | some w ↦ (elim expected [ none ↦ false | some e ↦ same_wallet (some w) e ])
        ])

    or_public : Option Text → Text
    or_public none = txt "public_chat"
    or_public (some r) = r

    -- `parsePassportDocument`; an array has none of the fields, so it is refused.
    unfoldable pub parse_passport_document :
        Json → Text → Text → Option Text → Option BaseMcpPassport
    unfolding or_public
    parse_passport_document (obj fs) passport_id wallet agent_wallet =
        guard (claims_passport fs passport_id && states_wallets fs wallet agent_wallet)
        >> (non_empty_string (get (txt "agent_id") fs) >>= λ agent_id.
            non_empty_string (get (txt "active_system_prompt_hash") fs) >>= λ hash.
            string_array (get (txt "authority_scope") fs) >>= λ scope.
            parse_capability_grants (get (txt "capability_grants") fs) >>= λ grants. some (record {
              agent_id = agent_id;
              passport_id = passport_id;
              agent_wallet = agent_wallet;
              active_system_prompt_hash = hash;
              authority_scope = scope;
              risk_context = some (or_public (non_empty_string (get (txt "risk_context") fs)));
              capability_grants = grants;
            }))
    parse_passport_document v passport_id wallet agent_wallet = none

-- What the registry's client answers: the owner of a passport, the agent's wallet where the client
-- reads it, the URI of the document, and the document behind a URI; each call may throw.
pub record PassportClient : Type 0 where
  pub agent_registry : Option Text
  pub owner_of : Text → Outcome (Option Text)
  pub get_agent_wallet : Option (Text → Outcome (Option Text))
  pub token_uri : Text → Outcome (Option Text)
  pub fetch_passport_document : Text → Outcome Json

-- The whole chain is under one `try` whose `catch` answers `null`.
abbrev pub caught {ℓ} : {A : Type ℓ} → Outcome A → Option A
caught (returned a) = some a
caught (threw e) = none

module _ (client : PassportClient) where
  unfoldable pub agent_wallet_of : Text → Option (Option Text)
  agent_wallet_of passport_id = elim client.get_agent_wallet [
    | none ↦ some none
    | some read_wallet ↦ caught (read_wallet passport_id) >>= λ w. some (verified_wallet w)
  ]

  unfoldable pub document_of : Text → Option Json
  document_of passport_id = caught (client.token_uri passport_id) >>= λ uri. uri >>= λ u.
      guard (not (is_empty (trim u))) >> caught (client.fetch_passport_document (trim u))

-- `resolveErc8004Passport`
unfoldable pub resolve_passport : Host → PassportClient → Text → Text → Option BaseMcpPassport
resolve_passport host client given_wallet given_id =
    let passport_id = trim given_id in
    let wallet = trim given_wallet in
    guard (not (is_empty passport_id || is_empty wallet))
    >> (caught (client.owner_of passport_id) >>= λ owner.
        guard (same_wallet owner wallet)
        >> (agent_wallet_of client passport_id >>= λ agent_wallet.
            document_of client passport_id >>= λ document.
            parse_passport_document host client.agent_registry document passport_id wallet
              agent_wallet))
