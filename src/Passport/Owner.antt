-- ===== src/Passport/Owner.antt =====
-- What a resolved passport is.
use bankr_integration.Prelude.{
  ◌≡◌, refl, sym, ap, ◌∙◌, subst, true, not, ◌||◌, Option, none, some, List, >>=-eq-some,
  >>-eq-some, some_inj, transfer_some, All, and-eq-true, ◌&&◌,
}
use bankr_integration.Js.Text.{Text, txt, ===_sound, trim, is_empty}
use bankr_integration.Js.Json.{Json, undefined, arr, obj, Elems, nil, cons, Fields, get}
use bankr_integration.Js.Host.{Host}
use bankr_integration.Approval.Usage.{Outcome, returned, threw}
use bankr_integration.Mcp.Session.{CapabilityGrant, BaseMcpPassport}
use bankr_integration.Passport.Fields.{
  normalized, same_wallet, non_empty_string, string_array, optional_string_array,
  optional_string_or_number, optional_boolean, optional_chain_id, optional_iso_date,
  optional_string,
}
use bankr_integration.Passport.Document.{
  valid, grant_of, parse_capability_grant, all_grants, parse_capability_grants, claims_passport,
  states_wallets, parse_passport_document, PassportClient, caught, agent_wallet_of, document_of,
  resolve_passport,
}

caught-returned : {A : Type 0} (o : Outcome A) {a : A} → caught o ≡ some a → o ≡ returned a
caught-returned (returned b) h = ap returned (some_inj h)
caught-returned (threw e) h = cc

-- The owner that the registry states is the wallet.
abbrev pub IsOwnedBy : PassportClient → Text → Text → Type 0
IsOwnedBy client wallet passport_id =
    (owner : Text) × (client.owner_of passport_id ≡ returned (some owner))
    × (normalized owner ≡ normalized wallet)

same_wallet-IsOwnedBy :
    (client : PassportClient) (wallet passport_id : Text) (owner : Option Text)
    → client.owner_of passport_id ≡ returned owner
    → same_wallet owner wallet ≡ true
    → IsOwnedBy client wallet passport_id
unfolding same_wallet
same_wallet-IsOwnedBy client wallet passport_id none r h = cc
same_wallet-IsOwnedBy client wallet passport_id (some owner) r h = (owner, r, ===_sound _ _ h)

-- A grant that names no assets.
abbrev pub NamesNoAsset : CapabilityGrant → Type 0
NamesNoAsset g = g.allowed_assets ≡ none

module _ (host : Host) where
  parse_capability_grant-NamesNoAsset :
      (v : Json) (g : CapabilityGrant) → parse_capability_grant host v ≡ some g → NamesNoAsset g
  unfolding parse_capability_grant grant_of
  parse_capability_grant-NamesNoAsset (obj fs) g h =
      let (capability, _, h) = >>=-eq-some (non_empty_string (get (txt "capability") fs)) _ h in
      let (_, _, h) = >>=-eq-some (valid (optional_chain_id (get (txt "chain_id") fs))) _ h in
      let (_, _, h) =
        >>=-eq-some (valid (optional_string_array (get (txt "allowed_recipients") fs))) _ h in
      let (_, _, h) =
        >>=-eq-some (valid (optional_string_array (get (txt "allowed_contracts") fs))) _ h in
      let (_, _, h) =
        >>=-eq-some (valid (optional_string_array (get (txt "allowed_methods") fs))) _ h in
      let (_, _, h) =
        >>=-eq-some (valid (optional_string_or_number (get (txt "max_per_call") fs))) _ h in
      let (_, _, h) =
        >>=-eq-some (valid (optional_string_or_number (get (txt "max_per_day") fs))) _ h in
      let (_, _, h) = >>=-eq-some (valid (optional_boolean (get (txt "requires_human") fs))) _ h in
      let (_, _, h) =
        >>=-eq-some (valid (optional_iso_date host (get (txt "expires_at") fs))) _ h in
      let (_, _, h) = >>=-eq-some (valid (optional_string (get (txt "policy_hash") fs))) _ h in
      transfer_some NamesNoAsset h refl
  parse_capability_grant-NamesNoAsset v g h = cc

  all_grants-NamesNoAsset :
      (xs : Elems) (gs : List CapabilityGrant) → all_grants host xs ≡ some gs → All NamesNoAsset gs
  unfolding all_grants
  all_grants-NamesNoAsset nil gs h = transfer_some (All NamesNoAsset) h tt
  all_grants-NamesNoAsset (cons v vs) gs h =
      let (g, p, h) = >>=-eq-some (parse_capability_grant host v) _ h in
      let (rest, q, h) = >>=-eq-some (all_grants host vs) _ h in
      transfer_some (All NamesNoAsset) h
        (parse_capability_grant-NamesNoAsset v g p, all_grants-NamesNoAsset vs rest q)

  module _ (registry : Option Text) where
    -- What a document that is accepted has.
    abbrev pub IsDocumentOf : Fields → Text → Text → Option Text → BaseMcpPassport → Type 0
    IsDocumentOf fs passport_id wallet agent_wallet p =
        (claims_passport host registry fs passport_id ≡ true)
        × (states_wallets host registry fs wallet agent_wallet ≡ true)
        × (p.passport_id ≡ passport_id)
        × (p.agent_wallet ≡ agent_wallet)
        × (non_empty_string (get (txt "agent_id") fs) ≡ some p.agent_id)
        × (non_empty_string (get (txt "active_system_prompt_hash") fs)
            ≡ some p.active_system_prompt_hash)
        × (string_array (get (txt "authority_scope") fs) ≡ some p.authority_scope)
        × (parse_capability_grants host (get (txt "capability_grants") fs)
            ≡ some p.capability_grants)

    parse_passport_document-IsDocumentOf :
        (document : Json) (passport_id wallet : Text) (agent_wallet : Option Text)
        (p : BaseMcpPassport)
        → parse_passport_document host registry document passport_id wallet agent_wallet ≡ some p
        → (fs : Fields) × (document ≡ obj fs) × IsDocumentOf fs passport_id wallet agent_wallet p
    unfolding parse_passport_document
    parse_passport_document-IsDocumentOf (obj fs) passport_id wallet agent_wallet p h =
        let (cs, h) =
          >>-eq-some
            (claims_passport host registry fs passport_id
              && states_wallets host registry fs wallet agent_wallet)
            _ h in
        let (c, s) = and-eq-true _ _ cs in
        let (agent_id, a, h) = >>=-eq-some (non_empty_string (get (txt "agent_id") fs)) _ h in
        let (hash, b, h) =
          >>=-eq-some (non_empty_string (get (txt "active_system_prompt_hash") fs)) _ h in
        let (scope, d, h) = >>=-eq-some (string_array (get (txt "authority_scope") fs)) _ h in
        let (grants, e, h) =
          >>=-eq-some (parse_capability_grants host (get (txt "capability_grants") fs)) _ h in
        (
          fs,
          refl,
          transfer_some (IsDocumentOf fs passport_id wallet agent_wallet) h
              (c, s, refl, refl, a, b, d, e),
        )
    parse_passport_document-IsDocumentOf v passport_id wallet agent_wallet p h = cc

  parse_capability_grants-NamesNoAsset :
      (v : Json) (gs : List CapabilityGrant)
      → parse_capability_grants host v ≡ some (some gs)
      → All NamesNoAsset gs
  unfolding parse_capability_grants
  parse_capability_grants-NamesNoAsset undefined gs h = cc
  parse_capability_grants-NamesNoAsset (arr xs) gs h =
      let (rest, q, h) = >>=-eq-some (all_grants host xs) _ h in
      transfer_some (All NamesNoAsset) (some_inj h) (all_grants-NamesNoAsset xs rest q)
  parse_capability_grants-NamesNoAsset v gs h = cc

  module _ (client : PassportClient) (given_wallet given_id : Text) (p : BaseMcpPassport) where
    -- A passport that is resolved for a wallet and an id, blanks at their ends left out, has an
    -- owner in the registry who is that wallet up to letter case; its agent wallet is the verified
    -- one that the registry reads; and it comes from the document behind the passport's URI, which
    -- claims the id, by its own field or a registration of the expected registry and by neither
    -- wrongly, states no other owner or agent wallet, and has the passport's agent, prompt hash,
    -- scope and grants.
    pub resolve_passport-IsOwnedBy :
        resolve_passport host client given_wallet given_id ≡ some p
        → IsOwnedBy client (trim given_wallet) (trim given_id)
          × (agent_wallet_of client (trim given_id) ≡ some p.agent_wallet)
          × ((fs : Fields) × (document_of client (trim given_id) ≡ some (obj fs))
              × IsDocumentOf client.agent_registry fs
                  (trim given_id)
                  (trim given_wallet)
                  p.agent_wallet
                  p)
    unfolding resolve_passport
    resolve_passport-IsOwnedBy h =
        let (_, h) =
          >>-eq-some (not (is_empty (trim given_id) || is_empty (trim given_wallet))) _ h in
        let (owner, o, h) = >>=-eq-some (caught (client.owner_of (trim given_id))) _ h in
        let (same, h) = >>-eq-some (same_wallet owner (trim given_wallet)) _ h in
        let (agent_wallet, a, h) = >>=-eq-some (agent_wallet_of client (trim given_id)) _ h in
        let (document, d, h) = >>=-eq-some (document_of client (trim given_id)) _ h in
        let (fs, is_obj, doc) =
          parse_passport_document-IsDocumentOf client.agent_registry document (trim given_id)
            (trim given_wallet) agent_wallet p h in
        let w : p.agent_wallet ≡ agent_wallet = doc.3 in
        (
          same_wallet-IsOwnedBy client (trim given_wallet) (trim given_id) owner
              (caught-returned _ o) same,
          a ∙ ap some (sym w),
          (
            fs,
            d ∙ ap some is_obj,
            subst
                (λ x. IsDocumentOf client.agent_registry fs (trim given_id) (trim given_wallet) x p)
                (sym w) doc,
          ),
        )

    -- No grant of a resolved passport names assets, whatever the document's grants state.
    pub resolve_passport-NamesNoAsset :
        (gs : List CapabilityGrant)
        → resolve_passport host client given_wallet given_id ≡ some p
        → p.capability_grants ≡ some gs
        → All NamesNoAsset gs
    resolve_passport-NamesNoAsset gs h g =
        let (_, _, (fs, _, doc)) = resolve_passport-IsOwnedBy h in
        parse_capability_grants-NamesNoAsset (get (txt "capability_grants") fs) gs
          (doc.7 ∙ ap some g)
