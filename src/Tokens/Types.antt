-- ===== src/Tokens/Types.antt =====
-- The records of the tokens, the scopes, the format of a token and what the calls answer.
use bankr_integration.Prelude.{
  ℕ, Bool, false, not, ◌&&◌, ◌||◌, Option, none, some, List, [], ◌∷◌, ◌++◌, if◌then◌else◌, take,
  drop, ◌==◌,
}
use bankr_integration.Js.Text.{Text, txt, includes, is_empty, starts_with}
use bankr_integration.Js.Number.{Number}
use bankr_integration.Js.Pattern.{Re, seq, one, star, test_whole, times, is_lower_hex, is_word}

pub record McpTokenRecord : Type 0 where
  pub id : Text
  pub wallet : Text
  pub label : Text
  pub token_hash : Text
  pub scopes : List Text
  pub created_at : Text
  pub expires_at : Option Text
  pub revoked_at : Option Text
  pub last_used_at : Option Text
  pub last_used_tool : Option Text

-- A record without its hash.
pub record McpTokenPublic : Type 0 where
  pub id : Text
  pub wallet : Text
  pub label : Text
  pub scopes : List Text
  pub created_at : Text
  pub expires_at : Option Text
  pub revoked_at : Option Text
  pub last_used_at : Option Text
  pub last_used_tool : Option Text

unfoldable pub public_record : McpTokenRecord → McpTokenPublic
public_record r = record {
  id = r.id;
  wallet = r.wallet;
  label = r.label;
  scopes = r.scopes;
  created_at = r.created_at;
  expires_at = r.expires_at;
  revoked_at = r.revoked_at;
  last_used_at = r.last_used_at;
  last_used_tool = r.last_used_tool;
}

-- A string that is truthy.
abbrev pub is_set : Option Text → Bool
is_set none = false
is_set (some t) = not (is_empty t)

unfoldable pub allowed_mcp_scopes : List Text
allowed_mcp_scopes =
    txt "graph:read"
    ∷ txt "scripture:read"
    ∷ txt "council_memory:read"
    ∷ txt "base_mcp:governed"
    ∷ []

unfoldable pub default_scope : Text
default_scope = txt "graph:read"

-- The loop of `normalizeMcpScopes`, with what it has so far; `none` where it throws.
unfoldable pub normalize_from : List Text → List Text → Option (List Text)
normalize_from out [] = some out
normalize_from out (s ∷ ss) =
    let rest = normalize_from (if includes out s then out else out ++ s ∷ []) ss in
    if includes allowed_mcp_scopes s then rest else none

unfoldable pub normalize_mcp_scopes : List Text → Option (List Text)
normalize_mcp_scopes [] = normalize_from [] (default_scope ∷ [])
normalize_mcp_scopes (s ∷ ss) = normalize_from [] (s ∷ ss)

-- What a call reads or may fail at: the hashing key (`none` where `secret` throws), the time, and
-- whether writing the file fails.
pub record Setting : Type 0 where
  pub key : Option Text
  pub now : Number
  pub write_fails : Bool

pub data Answer {ℓ} (A : Type ℓ) : Type ℓ where
  gave : A → Answer A
  failed : Answer A

-- The random parts of a new token, and its label and expiry as `cleanLabel` and `expiry` make them.
pub record NewToken : Type 0 where
  pub wallet : Text
  pub id : Text
  pub body : Text
  pub label : Text
  pub scopes : List Text
  pub expires_at : Option Text

is_token : ℕ → Bool
is_token c = is_word c || c == b'-'

-- `TOKEN_RE` after its prefix: the id, a `_` and the body.
token_rest : Re
unfolding is_token
token_rest =
    seq (times 18 (one is_lower_hex))
      (seq (one (λ c. c == b'_')) (seq (times 32 (one is_token)) (star is_token)))

-- The first group of `TOKEN_RE`, if it matches.
unfoldable pub token_id : Text → Option Text
unfolding token_rest
token_id token =
    if starts_with token (txt "leo_mcp_") && test_whole token_rest (drop 8 token)
    then some (take 18 (drop 8 token))
    else none

pub data TokenCode : Type 0 where
  missing malformed invalid revoked expired insufficient_scope : TokenCode

pub data Verified : Type 0 where
  verified : McpTokenRecord → Verified
  denied : TokenCode → Verified

-- The wallet and the random parts of a token that replaces another, before it takes that one's label.
abbrev pub replacement : Text → Text → Text → NewToken
replacement w id body = record {
  wallet = w;
  id = id;
  body = body;
  label = [];
  scopes = [];
  expires_at = none;
}
