-- ===== src/Tokens/Store.antt =====
-- The records of the tokens and the operations on them. The records are the module's cache; every
-- change is made there first and then written to the file, which may fail.
use bankr_integration.Prelude.{
  Bool, true, false, not, ◌&&◌, Option, none, some, List, [], ◌∷◌, ◌++◌, if◌then◌else◌, map, any,
  filter, find?,
}
use bankr_integration.Js.Text.{Text, txt, ◌===◌, includes, lower, is_empty}
use bankr_integration.Js.Number.{Number, num_lt}
use bankr_integration.Js.Host.{Host}
use bankr_integration.Tokens.Types.{
  Answer, McpTokenRecord, McpTokenPublic, public_record, is_set, normalize_mcp_scopes, Setting,
  NewToken, token_id, Verified, replacement, gave, failed, missing, malformed, invalid, revoked,
  expired, insufficient_scope, verified, denied,
}

module _ (host : Host) where
  unfoldable pub hash_token : Setting → Text → Option Text
  hash_token c token = elim c.key [ none ↦ none | some k ↦ some (host.hmac_hex k token) ]

  unfoldable pub token_text : NewToken → Text
  token_text n = txt "leo_mcp_" ++ n.id ++ txt "_" ++ n.body

  -- `persist` after a change: the change stays where the write fails.
  unfoldable pub persist {ℓ} :
      {A : Type ℓ} → Setting → A → List McpTokenRecord → Answer A × List McpTokenRecord
  persist c a rs = (if c.write_fails then failed else gave a, rs)

  -- The loop that revokes what the wallet has.
  unfoldable pub revoke_wallet : Text → Text → McpTokenRecord → McpTokenRecord
  revoke_wallet w now r =
      if r.wallet === w && not (is_set r.revoked_at) then record r { revoked_at = some now } else r

  unfoldable pub new_record : Setting → NewToken → Text → List Text → McpTokenRecord
  new_record c n hash scopes = record {
    id = n.id;
    wallet = lower n.wallet;
    label = n.label;
    token_hash = hash;
    scopes = scopes;
    created_at = host.print_date c.now;
    expires_at = n.expires_at;
    revoked_at = none;
    last_used_at = none;
    last_used_tool = none;
  }

  unfoldable pub create_with :
      Setting
      → NewToken
      → Option Text
      → Option (List Text)
      → List McpTokenRecord
      → Answer (Text × McpTokenPublic) × List McpTokenRecord
  create_with c n (some hash) (some scopes) rs =
      let r = new_record c n hash scopes in
      persist c (token_text n, public_record r)
        (map (revoke_wallet (lower n.wallet) (host.print_date c.now)) rs ++ r ∷ [])
  create_with c n hash scopes rs = (failed, rs)

  -- `createMcpToken`; nothing is changed where hashing or the scopes throw.
  unfoldable pub create_mcp_token :
      Setting
      → NewToken
      → List McpTokenRecord
      → Answer (Text × McpTokenPublic) × List McpTokenRecord
  unfolding create_with hash_token
  create_mcp_token c n rs =
      create_with c n (hash_token c (token_text n)) (normalize_mcp_scopes n.scopes) rs

  unfoldable pub list_mcp_tokens : Text → List McpTokenRecord → List McpTokenPublic
  list_mcp_tokens w rs =
      map public_record (filter (λ (r : McpTokenRecord). r.wallet === lower w) rs)

  -- A change of the first record that passes a test.
  unfoldable pub change_first :
      (McpTokenRecord → Bool)
      → (McpTokenRecord → McpTokenRecord)
      → List McpTokenRecord
      → List McpTokenRecord
  change_first p f [] = []
  change_first p f (r ∷ rs) = if p r then f r ∷ rs else r ∷ change_first p f rs

  unfoldable pub is_owned : Text → Text → McpTokenRecord → Bool
  is_owned w id r = r.wallet === w && r.id === id

  unfoldable pub mark_revoked : Text → McpTokenRecord → McpTokenRecord
  mark_revoked now r = if is_set r.revoked_at then r else record r { revoked_at = some now }

  unfoldable pub revoke_found :
      Setting
      → Text
      → Text
      → Option McpTokenRecord
      → List McpTokenRecord
      → Answer Bool × List McpTokenRecord
  revoke_found c w id none rs = (gave false, rs)
  revoke_found c w id (some r) rs =
      persist c true (change_first (is_owned w id) (mark_revoked (host.print_date c.now)) rs)

  unfoldable pub revoke_mcp_token :
      Setting → Text → Text → List McpTokenRecord → Answer Bool × List McpTokenRecord
  unfolding revoke_found
  revoke_mcp_token c wallet id rs =
      revoke_found c (lower wallet) id (find? (is_owned (lower wallet) id) rs) rs

  unfoldable pub rotate_found :
      Setting
      → NewToken
      → Option McpTokenRecord
      → Answer Bool × List McpTokenRecord
      → Answer (Option (Text × McpTokenPublic)) × List McpTokenRecord
  rotate_found c n none (a, rs) = (gave none, rs)
  rotate_found c n (some r) (failed, rs) = (failed, rs)
  rotate_found c n (some r) (gave b, rs) =
      let (a, rs') =
        create_mcp_token c
          (record n { label = r.label; scopes = r.scopes; expires_at = r.expires_at }) rs in
      (elim a [ gave t ↦ gave (some t) | failed ↦ failed ], rs')

  -- `rotateMcpToken` of a wallet and an id, with the random parts of the new token; `gave none` where
  -- no record has them.
  unfoldable pub rotate_mcp_token :
      Setting
      → Text
      → Text
      → Text
      → Text
      → List McpTokenRecord
      → Answer (Option (Text × McpTokenPublic)) × List McpTokenRecord
  unfolding rotate_found
  rotate_mcp_token c wallet id new_id body rs =
      let w = lower wallet in
      let found = find? (is_owned w id) rs in
      let n = replacement w new_id body in
      rotate_found c n found
        (elim found [ none ↦ (gave false, rs) | some r ↦ revoke_mcp_token c w id rs ])

  -- `!!r.expiresAt && Date.now() > Date.parse(r.expiresAt)`
  unfoldable pub is_expired : Number → Option Text → Bool
  is_expired now none = false
  is_expired now (some t) = not (is_empty t) && num_lt (host.parse_date t) now

  unfoldable pub is_match : Text → Text → McpTokenRecord → Bool
  is_match id hash r = r.id === id && r.token_hash === hash

  unfoldable pub mark_used : Text → Option Text → McpTokenRecord → McpTokenRecord
  mark_used now tool r = record r { last_used_at = some now; last_used_tool = tool }

  -- `verifyMcpToken` once the record is found; its codes for a refusal.
  unfoldable pub verify_record :
      Setting
      → Option Text
      → List Text
      → (McpTokenRecord → Bool)
      → Option McpTokenRecord
      → List McpTokenRecord
      → Answer Verified × List McpTokenRecord
  verify_record c tool required p none rs = (gave (denied invalid), rs)
  verify_record c tool required p (some r) rs =
      if is_set r.revoked_at
      then (gave (denied revoked), rs)
      else if is_expired c.now r.expires_at
      then (gave (denied expired), rs)
      else if not (any (λ s. includes r.scopes s) required)
      then (gave (denied insufficient_scope), rs)
      else persist c (verified (mark_used (host.print_date c.now) tool r))
          (change_first p (mark_used (host.print_date c.now) tool) rs)

  unfoldable pub verify_hash :
      Setting
      → Option Text
      → List Text
      → Text
      → Option Text
      → List McpTokenRecord
      → Answer Verified × List McpTokenRecord
  verify_hash c tool required id none rs = (gave (denied invalid), rs)
  verify_hash c tool required id (some hash) rs =
      verify_record c tool required (is_match id hash) (find? (is_match id hash) rs) rs

  -- `verifyMcpToken`; a token that is not given is blank.
  unfoldable pub verify_mcp_token :
      Setting
      → Text
      → List Text
      → Option Text
      → List McpTokenRecord
      → Answer Verified × List McpTokenRecord
  unfolding verify_hash hash_token
  verify_mcp_token c token required tool rs =
      if is_empty token then (gave (denied missing), rs) else elim (token_id token) [
        | none ↦ (gave (denied malformed), rs)
        | some id ↦ verify_hash c tool required id (hash_token c token) rs
      ]
