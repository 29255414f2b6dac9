-- ===== src/Access/Session.antt =====
-- The holder's session token, `leo2.<wallet>.<exp>.holder.<hmac>`.
use bankr_integration.Prelude.{
  ◌≡◌, refl, ap, ◌∙◌, arith, ℕ, Bool, true, false, not, ◌||◌, Option, none, some, List, [], ◌∷◌,
  ◌++◌, if◌then◌else◌, ◌==◌, any, ◌≢◌, inl, inr, Bool-cases, ==_iff,
}
use bankr_integration.Js.Text.{Text, txt, ◌===◌, lower, is_empty, join}
use bankr_integration.Js.Number.{Number, is_finite, num_lt}
use bankr_integration.Js.Host.{Host}
use bankr_integration.Approval.Usage.{Outcome, returned, threw}

cons_head : ℕ → List Text → List Text
cons_head c [] = (c ∷ []) ∷ []
cons_head c (part ∷ parts) = (c ∷ part) ∷ parts

-- `s.split(".")`.
unfoldable pub split_dots : Text → List Text
unfolding cons_head
split_dots [] = [] ∷ []
split_dots (c ∷ s) = if c == b'.' then [] ∷ split_dots s else cons_head c (split_dots s)

-- Splitting what was joined, and joining what was split.
abbrev pub has_dot : Text → Bool
has_dot s = any (λ c. c == b'.') s

pub split_dots-part :
    (p s : Text) → has_dot p ≡ false → split_dots (p ++ (txt "." ++ s)) ≡ p ∷ split_dots s
unfolding split_dots txt
split_dots-part [] s h = refl
split_dots-part (c ∷ p) s h = ground (arith, split_dots-part p s)

pub split_dots-last : (p : Text) → has_dot p ≡ false → split_dots p ≡ p ∷ []
unfolding split_dots
split_dots-last [] h = refl
split_dots-last (c ∷ p) h = ground (arith, split_dots-last p)

join-cons_head :
    (c : ℕ) (parts : List Text) → join (txt ".") (cons_head c parts) ≡ c ∷ join (txt ".") parts
unfolding join cons_head
join-cons_head c [] = refl
join-cons_head c (p ∷ []) = refl
join-cons_head c (p ∷ q ∷ ps) = refl

join-nil :
    (parts : List Text)
    → (parts ≢ [])
    → join (txt ".") ([] ∷ parts) ≡ txt "." ++ join (txt ".") parts
unfolding join
join-nil [] h = absurd (h refl)
join-nil (p ∷ ps) h = refl

cons_head-nonempty : (c : ℕ) (parts : List Text) → cons_head c parts ≢ []
unfolding cons_head
cons_head-nonempty c [] h = cc
cons_head-nonempty c (p ∷ ps) h = cc

split_dots-nonempty : (s : Text) → split_dots s ≢ []
unfolding split_dots
split_dots-nonempty [] h = cc
split_dots-nonempty (c ∷ s) h = ground (arith, cons_head-nonempty c (split_dots s))

dot_cons : (c : ℕ) (s t : Text) → (c == b'.') ≡ true → s ≡ t → txt "." ++ s ≡ c ∷ t
unfolding txt
dot_cons c s t h e = rw (e, (==_iff c b'.').0 h) refl

pub join-split_dots : (s : Text) → join (txt ".") (split_dots s) ≡ s
unfolding split_dots join
join-split_dots [] = refl
join-split_dots (c ∷ s) = elim (Bool-cases (c == b'.')) [
  | inl h ↦ rw h (join-nil _ (split_dots-nonempty s) ∙ dot_cons c _ s h (join-split_dots s))
  | inr h ↦ rw h (join-cons_head c (split_dots s) ∙ ap (λ x. c ∷ x) (join-split_dots s))
]

abbrev pub version : Text
version = txt "leo2"

abbrev pub purpose : Text
purpose = txt "holder"

-- `sessionPayload`
unfoldable pub session_payload : Text → Text → Text
session_payload wallet exp = join (txt ".") (version ∷ lower wallet ∷ exp ∷ purpose ∷ [])

module _ (host : Host) where
  -- `createSessionToken`; `none` for a secret that is not set.
  unfoldable pub create_session_token : Option Text → Text → Number → Outcome Text
  create_session_token none wallet exp = threw (txt "SESSION_SECRET is not set")
  create_session_token (some secret) wallet exp =
      let payload = session_payload wallet (host.print_number exp) in
      if is_empty secret
      then threw (txt "SESSION_SECRET is not set")
      else returned (join (txt ".") (payload ∷ host.hmac_hex secret payload ∷ []))

  -- A signed part that has run out, or has no end that is a number.
  unfoldable pub has_ended : Number → Text → Bool
  has_ended now exp = not (is_finite (host.parse_number exp)) || num_lt (host.parse_number exp) now

  unfoldable pub verify_parts : Number → Text → List Text → Option Text
  verify_parts now secret (v ∷ wallet ∷ exp ∷ p ∷ sig ∷ []) =
      if not (v === version) || not (p === purpose)
      then none
      else if not (sig === host.hmac_hex secret (session_payload wallet exp))
      then none
      else if has_ended now exp
      then none
      else some (lower wallet)
  verify_parts now secret parts = none

  -- `verifySessionToken`
  unfoldable pub verify_session_token : Number → Option Text → Option Text → Option Text
  verify_session_token now none value = none
  verify_session_token now secret none = none
  verify_session_token now (some secret) (some value) =
      if is_empty value || is_empty secret then none else verify_parts now secret (split_dots value)
