-- ===== src/Tokens/Verify.antt =====
-- What a token that verifies is.
use bankr_integration.Prelude.{
  ◌≡◌, ◌≢◌, refl, Bool, true, false, Option, none, some, List, any, find?, find?-holds, and-eq-true,
  arith, Bool-cases, Option-cases, inl, inr,
}
use bankr_integration.Js.Text.{Text, ◌===◌, ===_sound, includes, is_empty}
use bankr_integration.Js.Host.{Host}
use bankr_integration.Tokens.Types.{
  Answer, McpTokenRecord, is_set, Setting, gave, Verified, verified, token_id,
}
use bankr_integration.Tokens.Store.{
  persist, hash_token, is_expired, is_match, mark_used, verify_record, verify_hash,
  verify_mcp_token,
}

-- The record of the answer, if the token was verified.
abbrev pub verified_record : Answer Verified → Option McpTokenRecord
verified_record (gave (verified r)) = some r
verified_record a = none

nothing : {r : McpTokenRecord} → none ≢ some r
nothing h = ground arith

module _ (host : Host) (c : Setting) (required : List Text) (tool : Option Text) where
  -- A record of the store for the token's id and hash, not revoked, not past its expiry, with one of
  -- the required scopes.
  abbrev pub IsValid : Text → List McpTokenRecord → McpTokenRecord → Type 0
  IsValid token rs r =
      (id : Text) × (hash : Text) × (token_id token ≡ some id)
      × (hash_token host c token ≡ some hash)
      × (find? (is_match host id hash) rs ≡ some r)
      × (r.id ≡ id)
      × (r.token_hash ≡ hash)
      × (is_set r.revoked_at ≡ false)
      × (is_expired host c.now r.expires_at ≡ false)
      × (any (λ s. includes r.scopes s) required ≡ true)

  verify_record_accepted :
      (p : McpTokenRecord → Bool) (o : Option McpTokenRecord) (rs : List McpTokenRecord)
      {u : McpTokenRecord}
      → verified_record (verify_record host c tool required p o rs).0 ≡ some u
      → (r : McpTokenRecord) × (o ≡ some r)
        × (u ≡ mark_used host (host.print_date c.now) tool r)
        × (is_set r.revoked_at ≡ false)
        × (is_expired host c.now r.expires_at ≡ false)
        × (any (λ s. includes r.scopes s) required ≡ true)
  unfolding verify_record persist
  verify_record_accepted p none rs h = absurd (ground arith)
  verify_record_accepted p (some r) rs h =
      (r, refl, ground arith, ground arith, ground arith, ground arith)

  verify_hash-IsValid :
      (token id : Text) (o : Option Text) (rs : List McpTokenRecord) {u : McpTokenRecord}
      → token_id token ≡ some id
      → hash_token host c token ≡ o
      → verified_record (verify_hash host c tool required id o rs).0 ≡ some u
      → (r : McpTokenRecord) × IsValid token rs r
        × (u ≡ mark_used host (host.print_date c.now) tool r)
  unfolding verify_hash is_match
  verify_hash-IsValid token id none rs i k h = absurd (ground arith)
  verify_hash-IsValid token id (some hash) rs i k h =
      let (r, found, used, live, current, scoped) =
        verify_record_accepted (is_match host id hash) (find? (is_match host id hash) rs) rs h in
      let held = find?-holds (is_match host id hash) rs {x = r} found in
      let (same, hashed) = and-eq-true (r.id === id) _ held in
      (
        r,
        (id, hash, i, k, found, ===_sound _ _ same, ===_sound _ _ hashed, live, current, scoped),
        used,
      )

  -- When a token is verified, its text has the token format and the first record with its id and
  -- hash is not revoked, is not past its expiry and has one of the required scopes; the record
  -- answered is that one, marked as used.
  pub verify_mcp_token-IsValid :
      (token : Text) (rs : List McpTokenRecord) {u : McpTokenRecord}
      → verified_record (verify_mcp_token host c token required tool rs).0 ≡ some u
      → (r : McpTokenRecord) × IsValid token rs r
        × (u ≡ mark_used host (host.print_date c.now) tool r)
  unfolding verify_mcp_token
  verify_mcp_token-IsValid token rs h = elim (Bool-cases (is_empty token)) [
    | inl b ↦ absurd (nothing (rw (b, verify_mcp_token) at h))
    | inr b ↦ elim (Option-cases (token_id token)) [
      | inl o ↦ absurd (nothing (rw (b, o, verify_mcp_token) at h))
      | inr (id, o) ↦
          verify_hash-IsValid token id (hash_token host c token) rs o refl
            (rw (b, o, verify_mcp_token) at h)
    ]
  ]
