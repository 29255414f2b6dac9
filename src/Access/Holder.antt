-- ===== src/Access/Holder.antt =====
-- What a session token that verifies is, and that one that was created verifies.
use mathlib.Core.List.{append_assoc}
use bankr_integration.Prelude.{
  ◌≡◌, refl, sym, ap, ◌∙◌, subst, arith, Bool, true, false, not, ◌||◌, Option, none, some, List, [],
  ◌∷◌, ◌++◌, some_inj, if◌then◌else◌,
}
use bankr_integration.Js.Text.{
  Text, txt, ◌===◌, ===_sound, ===_refl, lower, lower_unit, lower_idem, is_empty, join,
}
use bankr_integration.Js.Number.{Number, is_finite, num_lt}
use bankr_integration.Js.Host.{Host}
use bankr_integration.Approval.Usage.{Outcome, returned, threw}
use bankr_integration.Access.Session.{
  split_dots, has_dot, split_dots-part, split_dots-last, join-split_dots, version, purpose,
  session_payload, create_session_token, has_ended, verify_parts, verify_session_token,
}

-- An early `return null` that was not taken.
passed :
    (c : Bool) (rest : Option Text) {w : Text}
    → (if c then none else rest) ≡ some w
    → (c ≡ false) × (rest ≡ some w)
passed true rest h = cc
passed false rest h = (refl, h)

neither : (a b : Bool) → (not a || not b) ≡ false → (a ≡ true) × (b ≡ true)
neither a b h = ground arith

not-false : (b : Bool) → not b ≡ false → b ≡ true
not-false b h = ground arith

finite_before : (a b : Bool) → (not a || b) ≡ false → (a ≡ true) × (b ≡ false)
finite_before a b h = ground arith

module _ (host : Host) (now : Number) where
  -- The parts of a token that verifies.
  abbrev pub IsSigned : Text → List Text → Text → Type 0
  IsSigned secret parts w =
      (wallet exp : Text) × (parts
        ≡ version ∷ wallet ∷ exp ∷ purpose ∷ host.hmac_hex secret (session_payload wallet exp) ∷ [])
      × (w ≡ lower wallet)
      × (is_finite (host.parse_number exp) ≡ true)
      × (num_lt (host.parse_number exp) now ≡ false)

  verify_parts-IsSigned :
      (secret : Text) (parts : List Text) (w : Text)
      → verify_parts host now secret parts ≡ some w
      → IsSigned secret parts w
  unfolding verify_parts has_ended
  verify_parts-IsSigned secret (v ∷ wallet ∷ exp ∷ p ∷ sig ∷ []) w h =
      let (vp, h) = passed (not (v === version) || not (p === purpose)) _ h in
      let (s, h) = passed (not (sig === host.hmac_hex secret (session_payload wallet exp))) _ h in
      let (e, h) =
        passed (not (is_finite (host.parse_number exp)) || num_lt (host.parse_number exp) now) _
          h in
      let (is_v, is_p) = neither _ _ vp in
      let (fin, before) = finite_before _ _ e in
      (
        wallet,
        exp,
        rw (===_sound _ _ is_v, ===_sound _ _ is_p, ===_sound _ _ (not-false _ s)) refl,
        sym (some_inj h),
        fin,
        before,
      )
  verify_parts-IsSigned secret parts w h = cc

  nonempty_both :
      (value secret : Text) (rest : Option Text) {w : Text}
      → (if is_empty value || is_empty secret then none else rest) ≡ some w
      → rest ≡ some w
  nonempty_both value secret rest h = (passed (is_empty value || is_empty secret) rest h).1

  -- A session token that verifies, to a wallet w, is the version, a wallet, an expiry, the purpose
  -- and the digest of these four under the secret, joined by dots; w is its wallet in lower case,
  -- and its expiry is a finite number that is not before the present.
  pub verify_session_token-IsSigned :
      (secret value w : Text)
      → verify_session_token host now (some secret) (some value) ≡ some w
      → (wallet exp : Text) × (value
          ≡ join (txt ".") (
              version
              ∷ wallet
              ∷ exp
              ∷ purpose
              ∷ host.hmac_hex secret (session_payload wallet exp)
              ∷ []))
        × (w ≡ lower wallet)
        × (is_finite (host.parse_number exp) ≡ true)
        × (num_lt (host.parse_number exp) now ≡ false)
  unfolding verify_session_token
  verify_session_token-IsSigned secret value w h =
      let (wallet, exp, parts, w_is, fin, before) =
        verify_parts-IsSigned secret (split_dots value) w (nonempty_both value secret _ h) in
      (wallet, exp, sym (join-split_dots value) ∙ ap (join (txt ".")) parts, w_is, fin, before)

  has_dot-lower : (s : Text) → has_dot s ≡ false → has_dot (lower s) ≡ false
  unfolding lower lower_unit
  has_dot-lower [] h = refl
  has_dot-lower (c ∷ s) h = ground (arith, has_dot-lower s)

  regroup :
      (v w e p s : Text)
      → (v ++ (txt "." ++ (w ++ (txt "." ++ (e ++ (txt "." ++ p)))))) ++ (txt "." ++ s)
        ≡ v ++ (txt "." ++ (w ++ (txt "." ++ (e ++ (txt "." ++ (p ++ (txt "." ++ s)))))))
  regroup v w e p s = simp append_assoc

  split_token :
      (wallet exp sig : Text)
      → has_dot wallet ≡ false
      → has_dot exp ≡ false
      → has_dot sig ≡ false
      → split_dots (join (txt ".") (session_payload wallet exp ∷ sig ∷ []))
        ≡ version ∷ lower wallet ∷ exp ∷ purpose ∷ sig ∷ []
  unfolding join session_payload txt
  split_token wallet exp sig w e s =
      ap split_dots (regroup version (lower wallet) exp purpose sig)
      ∙ split_dots-part version _ refl
      ∙ ap (λ x. version ∷ x)
          (split_dots-part (lower wallet) _ (has_dot-lower wallet w)
            ∙ ap (λ x. lower wallet ∷ x)
                (split_dots-part exp _ e
                  ∙ ap (λ x. exp ∷ x)
                      (split_dots-part purpose _ refl
                        ∙ ap (λ x. purpose ∷ x) (split_dots-last sig s))))

  nonempty_secret :
      (k m : Text) (o : Outcome Text) {t : Text}
      → (if is_empty k then threw m else o) ≡ returned t
      → (is_empty k ≡ false) × (o ≡ returned t)
  nonempty_secret k m o h = ground arith

  returned_inj : {x y : Text} → returned x ≡ returned y → x ≡ y
  returned_inj h = cc

  session_payload-lower :
      (wallet exp : Text) → session_payload (lower wallet) exp ≡ session_payload wallet exp
  unfolding session_payload
  session_payload-lower wallet exp = rw (lower_idem wallet) refl

  token_nonempty :
      (wallet exp sig : Text)
      → is_empty (join (txt ".") (session_payload wallet exp ∷ sig ∷ [])) ≡ false
  unfolding is_empty join session_payload txt
  token_nonempty wallet exp sig = refl

  verify_made :
      (secret wallet exp : Text)
      → is_empty secret ≡ false
      → has_dot wallet ≡ false
      → has_dot exp ≡ false
      → ((s : Text) → has_dot (host.hmac_hex secret s) ≡ false)
      → has_ended host now exp ≡ false
      → verify_session_token host now (some secret) (
          some (
            join (txt ".") (
              session_payload wallet exp ∷ host.hmac_hex secret (session_payload wallet exp) ∷ [])))
        ≡ some (lower wallet)
  unfolding verify_session_token verify_parts
  verify_made secret wallet exp k w e s a =
      rw
        (
          k,
          split_token wallet exp _ w e (s _),
          token_nonempty wallet exp _,
          ===_refl version,
          ===_refl purpose,
          session_payload-lower wallet exp,
          ===_refl (host.hmac_hex secret (session_payload wallet exp)),
          a,
          lower_idem wallet,
        )
        refl

  -- Where neither the wallet, the printed expiry nor the digest has a dot, and the expiry is
  -- finite, is read back from its print and is not before the present, a session token that was
  -- created verifies, under the same secret, to its wallet in lower case.
  pub verify_session_token-create :
      (secret wallet token : Text) (exp : Number)
      → create_session_token host (some secret) wallet exp ≡ returned token
      → has_dot wallet ≡ false
      → has_dot (host.print_number exp) ≡ false
      → ((s : Text) → has_dot (host.hmac_hex secret s) ≡ false)
      → host.parse_number (host.print_number exp) ≡ exp
      → is_finite exp ≡ true
      → num_lt exp now ≡ false
      → verify_session_token host now (some secret) (some token) ≡ some (lower wallet)
  unfolding verify_session_token create_session_token has_ended
  verify_session_token-create secret wallet token exp h w e s p fin before =
      let (k, h) = nonempty_secret secret _ _ h in
      subst (λ t. verify_session_token host now (some secret) (some t) ≡ some (lower wallet))
        (returned_inj h)
        (verify_made secret wallet (host.print_number exp) k w e s (rw (p, fin, before) refl))
