-- ===== src/Bankr/Http.antt =====
-- The adapter's configuration and its requests: `cleanBaseUrl`, `cleanApiPath`, `chainName`,
-- `parseError`, `get` and `post`. What the remote service answers is a function of the requests that
-- one tool call has made, the last of them first.
use bankr_integration.Prelude.{
  ℕ, Bool, false, not, ◌&&◌, ◌||◌, Option, none, some, List, [], ◌∷◌, ◌++◌, if◌then◌else◌, take,
  reverse, ◌==◌, any,
}
use bankr_integration.Js.Text.{Text, txt, ◌===◌, lower, trim, is_empty, starts_with}
use bankr_integration.Js.Number.{Number, whole, num_eq, is_finite}
use bankr_integration.Js.Pattern.{test_whole, seq, one, plus, is_word}
use bankr_integration.Js.Json.{Json, to_number}
use bankr_integration.Js.Host.{Host}
use bankr_integration.Approval.Usage.{Outcome, returned, threw}

-- What `new URL` makes of a text.
pub record Url : Type 0 where
  pub protocol : Text
  pub href : Text

-- The parts of the platform that only this file uses: `new URL`, `none` where it throws, and
-- `encodeURIComponent`.
pub record Web : Type 0 where
  pub parse_url : Text → Option Url
  pub encode_uri_component : Text → Text

pub record BankrRuntimeOptions : Type 0 where
  pub api_key : Text
  pub api_base_url : Option Text
  pub enable_governed_writes : Bool
  pub receipt_publish_path : Option Text
  pub x402_payment_path : Option Text
  pub enable_x402_payments : Bool

pub data Method : Type 0 where
  get_method post_method : Method

-- The fixed headers are left out; `key` is the `X-API-Key` header.
pub record Request : Type 0 where
  pub method : Method
  pub url : Text
  pub key : Text
  pub body : Option Json

pub record BankrResponse : Type 0 where
  pub ok : Bool
  pub status : Number
  -- `none` where the body is no JSON and reading it throws, with a message of the platform.
  pub json : Outcome Json
  -- What `text` gives, `none` where there is no such method or it throws.
  pub text : Option Text

abbrev pub Server : Type 0
Server = List Request → Outcome BankrResponse

-- What a method gives, and the requests that it has made, the last first.
abbrev pub Sent {ℓ} : Type ℓ → Type ℓ
Sent A = Outcome A × List Request

abbrev pub continue {ℓ κ} :
    {A : Type ℓ} {B : Type κ} → Sent A → (A → List Request → Sent B) → Sent B
continue (returned a, sent) k = k a sent
continue (threw message, sent) k = (threw message, sent)

infixl 5 ◌>>=◌
abbrev pub ◌>>=◌ {ℓ κ} :
    {A : Type ℓ} {B : Type κ}
    → (List Request → Sent A)
    → (A → List Request → Sent B)
    → List Request
    → Sent B
(m >>= k) sent = continue (m sent) k

abbrev pub give {ℓ} : {A : Type ℓ} → A → List Request → Sent A
give a sent = (returned a, sent)

abbrev pub throw {ℓ} : {A : Type ℓ} → Text → List Request → Sent A
throw message sent = (threw message, sent)

-- A value that may have thrown.
abbrev pub lift {ℓ} : {A : Type ℓ} → Outcome A → List Request → Sent A
lift o sent = (o, sent)

drop_slashes : Text → Text
drop_slashes [] = []
drop_slashes (c ∷ s) = if c == b'/' then drop_slashes s else c ∷ s

-- `cleanBaseUrl`
unfoldable pub clean_base_url : Web → Option Text → Outcome Text
unfolding drop_slashes
clean_base_url web value =
    let raw = trim (elim value [ none ↦ txt "https://api.bankr.bot" | some v ↦ v ]) in
    elim (web.parse_url raw) [
      | none ↦ threw (txt "BANKR_API_BASE_URL must be a valid http(s) URL")
      | some parsed ↦
          if parsed.protocol === txt "https:" || parsed.protocol === txt "http:"
          then returned (reverse (drop_slashes (reverse parsed.href)))
          else threw (txt "BANKR_API_BASE_URL must be a valid http(s) URL")
    ]

-- `/^https?:\/\//i`
is_full_url : Text → Bool
is_full_url s = starts_with (lower s) (txt "http://") || starts_with (lower s) (txt "https://")

-- `[A-Za-z0-9._~!$&'()*+,;=:@%/-]`
is_path_unit : ℕ → Bool
is_path_unit c = is_word c || any (λ d. d == c) (txt ".~!$&'()*+,;=:@%/-")

has_dots : Text → Bool
has_dots [] = false
has_dots (c ∷ []) = false
has_dots (c ∷ d ∷ s) = (c == b'.' && d == b'.') || has_dots (d ∷ s)

unfoldable pub is_safe_path : Text → Bool
unfolding is_path_unit has_dots
is_safe_path s = test_whole (seq (one (λ c. c == b'/')) (plus is_path_unit)) s && not (has_dots s)

-- `cleanApiPath`; `none` for a path that is not configured.
unfoldable pub clean_api_path : Option Text → Text → Outcome (Option Text)
unfolding is_full_url
clean_api_path value env_name =
    let raw = trim (elim value [ none ↦ [] | some v ↦ v ]) in
    let normalized = if starts_with raw (txt "/") then raw else b'/' ∷ raw in
    if is_empty raw
    then returned none
    else if is_full_url raw
    then threw (env_name ++ txt " must be an API path, not a full URL")
    else if is_safe_path normalized
    then returned (some normalized)
    else threw (env_name ++ txt " must be a safe API path")

module _ (host : Host) where
  -- `chainName`
  unfoldable pub chain_name : Json → Text
  chain_name chain_id =
      let n = to_number host chain_id in
      if num_eq n (whole 8453)
      then txt "base"
      else if num_eq n (whole 84532)
      then txt "base-sepolia"
      else if is_finite n
      then host.print_number n
      else txt "base"

  -- `parseError`
  unfoldable pub parse_error : BankrResponse → Text
  parse_error res =
      let body : Text = elim res.text [ none ↦ [] | some t ↦ t ] in
      if is_empty body then txt "status " ++ host.print_number res.status else take 160 body

  unfoldable pub receive : Outcome BankrResponse → List Request → Sent Json
  receive (threw message) sent = (threw message, sent)
  receive (returned res) sent =
      if res.ok
      then (res.json, sent)
      else (threw (txt "Bankr request failed: " ++ parse_error res), sent)

  -- `get` and `post`: one request, whose answer must be a success.
  unfoldable pub request : Server → Request → List Request → Sent Json
  unfolding receive
  request server r sent = receive (server (r ∷ sent)) (r ∷ sent)
