-- ===== src/Tokens/Single.antt =====
-- A wallet never has two tokens that are not revoked.
use bankr_integration.Prelude.{
  ℕ, ◌+◌, ◌≤◌, ◌≡◌, refl, subst, Bool, false, not, ◌&&◌, Option, none, some, List, [], ◌∷◌, ◌++◌,
  if◌then◌else◌, map, filter, length, find?, arith, Bool-cases, Option-cases, inl, inr,
}
use bankr_integration.Js.Text.{Text, ◌===◌, ===_sound, lower, is_empty}
use bankr_integration.Js.Number.{Number}
use bankr_integration.Js.Host.{Host}
use bankr_integration.Tokens.Types.{
  Answer, McpTokenRecord, is_set, Setting, NewToken, gave, failed, replacement, token_id,
}
use bankr_integration.Tokens.Store.{
  persist, revoke_wallet, new_record, create_mcp_token, change_first, is_owned, mark_revoked,
  revoke_mcp_token, rotate_mcp_token, create_with, revoke_found, rotate_found, verify_hash,
  mark_used, verify_record, verify_mcp_token, is_match,
}

-- A record of the wallet that is not revoked.
abbrev pub is_live : Text → McpTokenRecord → Bool
is_live w r = r.wallet === w && not (is_set r.revoked_at)

abbrev pub live_count : Text → List McpTokenRecord → ℕ
live_count w rs = length (filter (is_live w) rs)

-- Every wallet has at most one.
abbrev pub IsSingle : List McpTokenRecord → Type 0
IsSingle rs = (w : Text) → live_count w rs ≤ 1

-- The calls that change the records.
pub data TokenCall : Type 0 where
  creates : Setting → NewToken → TokenCall
  revokes : Setting → Text → Text → TokenCall
  -- The wallet, the id, and the random parts of the new token.
  rotates : Setting → Text → Text → Text → Text → TokenCall
  verifies : Setting → Text → List Text → Option Text → TokenCall

module _ (host : Host) where
  unfoldable pub perform : TokenCall → List McpTokenRecord → List McpTokenRecord
  perform (creates c n) rs = (create_mcp_token host c n rs).1
  perform (revokes c w id) rs = (revoke_mcp_token host c w id rs).1
  perform (rotates c w id new_id body) rs = (rotate_mcp_token host c w id new_id body rs).1
  perform (verifies c token required tool) rs = (verify_mcp_token host c token required tool rs).1

  unfoldable pub run_all : List TokenCall → List McpTokenRecord → List McpTokenRecord
  run_all [] rs = rs
  run_all (t ∷ ts) rs = run_all ts (perform t rs)

  live_count_snoc :
      (w : Text) (rs : List McpTokenRecord) (r : McpTokenRecord)
      → live_count w (rs ++ r ∷ []) ≡ live_count w rs + (if is_live w r then 1 else 0)
  live_count_snoc w [] r = ground arith
  live_count_snoc w (q ∷ rs) r = ground (arith, live_count_snoc w rs r)

  revoke_wallet-none :
      (w now : Text) (rs : List McpTokenRecord)
      → is_empty now ≡ false
      → live_count w (map (revoke_wallet host w now) rs) ≡ 0
  unfolding revoke_wallet
  revoke_wallet-none w now [] h = refl
  revoke_wallet-none w now (r ∷ rs) h = ground (arith, revoke_wallet-none w now rs h)

  revoke_wallet-other :
      (w v now : Text) (rs : List McpTokenRecord)
      → live_count v (map (revoke_wallet host w now) rs) ≤ live_count v rs
  unfolding revoke_wallet
  revoke_wallet-other w v now [] = omega arith
  revoke_wallet-other w v now (r ∷ rs) = ground (arith, revoke_wallet-other w v now rs)

  change_first-count :
      (w : Text) (p : McpTokenRecord → Bool) (f : McpTokenRecord → McpTokenRecord)
      (rs : List McpTokenRecord)
      → ((r : McpTokenRecord) → is_live w r ≡ false → is_live w (f r) ≡ false)
      → live_count w (change_first host p f rs) ≤ live_count w rs
  unfolding change_first
  change_first-count w p f [] dead = omega arith
  change_first-count w p f (r ∷ rs) dead = ground (arith, dead r, change_first-count w p f rs dead)

  change_first-IsSingle :
      (p : McpTokenRecord → Bool) (f : McpTokenRecord → McpTokenRecord) (rs : List McpTokenRecord)
      → ((w : Text) (r : McpTokenRecord) → is_live w r ≡ false → is_live w (f r) ≡ false)
      → IsSingle rs
      → IsSingle (change_first host p f rs)
  change_first-IsSingle p f rs dead h w = ground (arith, h w, change_first-count w p f rs (dead w))

  mark_revoked-dead :
      (now w : Text) (r : McpTokenRecord)
      → is_live w r ≡ false
      → is_live w (mark_revoked host now r) ≡ false
  unfolding mark_revoked
  mark_revoked-dead now w r h = ground arith

  revoke_found-IsSingle :
      (c : Setting) (w id : Text) (o : Option McpTokenRecord) (rs : List McpTokenRecord)
      → IsSingle rs
      → IsSingle (revoke_found host c w id o rs).1
  unfolding revoke_found persist
  revoke_found-IsSingle c w id none rs h = h
  revoke_found-IsSingle c w id (some r) rs h =
      change_first-IsSingle (is_owned host w id) (mark_revoked host (host.print_date c.now)) rs
        (mark_revoked-dead (host.print_date c.now)) h

  verify_record-IsSingle :
      (c : Setting) (tool : Option Text) (required : List Text) (p : McpTokenRecord → Bool)
      (o : Option McpTokenRecord) (rs : List McpTokenRecord)
      → IsSingle rs
      → IsSingle (verify_record host c tool required p o rs).1
  unfolding verify_record persist mark_used
  verify_record-IsSingle c tool required p none rs h w = h w
  verify_record-IsSingle c tool required p (some r) rs h w =
      let used =
        change_first-IsSingle p (mark_used host (host.print_date c.now) tool) rs (λ v q d. d) h w in
      ground (arith, h w)

  verify_hash-IsSingle :
      (c : Setting) (tool : Option Text) (required : List Text) (id : Text) (o : Option Text)
      (rs : List McpTokenRecord)
      → IsSingle rs
      → IsSingle (verify_hash host c tool required id o rs).1
  unfolding verify_hash
  verify_hash-IsSingle c tool required id none rs h = h
  verify_hash-IsSingle c tool required id (some hash) rs h =
      verify_record-IsSingle c tool required (is_match host id hash) _ rs h

  verify_mcp_token-IsSingle :
      (c : Setting) (token : Text) (required : List Text) (tool : Option Text)
      (rs : List McpTokenRecord)
      → IsSingle rs
      → IsSingle (verify_mcp_token host c token required tool rs).1
  unfolding verify_mcp_token
  verify_mcp_token-IsSingle c token required tool rs h = elim (Bool-cases (is_empty token)) [
    | inl b ↦ rw (b, verify_mcp_token) h
    | inr b ↦ elim (Option-cases (token_id token)) [
      | inl o ↦ rw (b, o, verify_mcp_token) h
      | inr (id, o) ↦ rw (b, o, verify_mcp_token) (verify_hash-IsSingle c tool required id _ rs h)
    ]
  ]

  module _ (dated : (n : Number) → is_empty (host.print_date n) ≡ false) where
    created-IsSingle :
        (c : Setting) (n : NewToken) (hash : Text) (scopes : List Text) (rs : List McpTokenRecord)
        → IsSingle rs
        → IsSingle (
            map (revoke_wallet host (lower n.wallet) (host.print_date c.now)) rs
            ++ new_record host c n hash scopes ∷ [])
    unfolding new_record
    created-IsSingle c n hash scopes rs h v = elim (Bool-cases (lower n.wallet === v)) [
      | inl same ↦
          let none_left =
            revoke_wallet-none (lower n.wallet) (host.print_date c.now) rs (dated c.now) in
          let e = ===_sound (lower n.wallet) v same in
          let none_left' =
            subst
              (λ x.
                live_count x (map (revoke_wallet host (lower n.wallet) (host.print_date c.now)) rs)
                ≡ 0)
              e none_left in
          ground (
            arith,
            live_count_snoc v (map (revoke_wallet host (lower n.wallet) (host.print_date c.now)) rs)
                (new_record host c n hash scopes),
          )
      | inr other ↦ ground (
        arith,
        h v,
        revoke_wallet-other (lower n.wallet) v (host.print_date c.now) rs,
        live_count_snoc v (map (revoke_wallet host (lower n.wallet) (host.print_date c.now)) rs)
            (new_record host c n hash scopes),
      )
    ]

    create_with-IsSingle :
        (c : Setting) (n : NewToken) (hash : Option Text) (scopes : Option (List Text))
        (rs : List McpTokenRecord)
        → IsSingle rs
        → IsSingle (create_with host c n hash scopes rs).1
    unfolding create_with persist
    create_with-IsSingle c n (some hash) (some scopes) rs h = created-IsSingle c n hash scopes rs h
    create_with-IsSingle c n hash scopes rs h = h

    rotate_found-IsSingle :
        (c : Setting) (n : NewToken) (o : Option McpTokenRecord)
        (a : Answer Bool × List McpTokenRecord)
        → IsSingle a.1
        → IsSingle (rotate_found host c n o a).1
    unfolding rotate_found create_mcp_token
    rotate_found-IsSingle c n none (a, rs) h = h
    rotate_found-IsSingle c n (some r) (failed, rs) h = h
    rotate_found-IsSingle c n (some r) (gave b, rs) h =
        create_with-IsSingle c
          (record n { label = r.label; scopes = r.scopes; expires_at = r.expires_at }) _ _ rs h

    rotating :
        (c : Setting) (w id : Text) (o : Option McpTokenRecord) (rs : List McpTokenRecord)
        → IsSingle rs
        → IsSingle
            (elim o as (λ _. Answer Bool × List McpTokenRecord) [
              | none ↦ (gave false, rs)
              | some r ↦ revoke_mcp_token host c w id rs
            ]).1
    unfolding revoke_mcp_token
    rotating c w id none rs h = h
    rotating c w id (some r) rs h = revoke_found-IsSingle c (lower w) id _ rs h

    perform-IsSingle :
        (t : TokenCall) (rs : List McpTokenRecord) → IsSingle rs → IsSingle (perform t rs)
    unfolding perform create_mcp_token revoke_mcp_token rotate_mcp_token verify_mcp_token
    perform-IsSingle (creates c n) rs h = create_with-IsSingle c n _ _ rs h
    perform-IsSingle (revokes c w id) rs h = revoke_found-IsSingle c (lower w) id _ rs h
    perform-IsSingle (rotates c w id new_id body) rs h =
        rotate_found-IsSingle c (replacement (lower w) new_id body) _ _
          (rotating c (lower w) id (find? (is_owned host (lower w) id) rs) rs h)
    perform-IsSingle (verifies c token required tool) rs h =
        verify_mcp_token-IsSingle c token required tool rs h

    -- Where dates print as texts that are not blank, if no wallet has two tokens that are not
    -- revoked then none has after any sequence of creations, revocations, rotations and
    -- verifications, whether hashing, the scopes or writing the file fail in them or not.
    pub run_all-IsSingle :
        (ts : List TokenCall) (rs : List McpTokenRecord) → IsSingle rs → IsSingle (run_all ts rs)
    unfolding run_all
    run_all-IsSingle [] rs h = h
    run_all-IsSingle (t ∷ ts) rs h = run_all-IsSingle ts (perform t rs) (perform-IsSingle t rs h)
