-- ===== src/Passport/Fields.antt =====
-- The readers of single fields of a passport document. A reader answers `undefined`, `null` or a value:
-- `absent`, `invalid` and `present`.
use bankr_integration.Prelude.{
  ◌-◌, ◌*◌, ◌%◌, ◌^◌, ltb, leb, ◌==◌, Bool, false, not, ◌&&◌, Option, none, some, List, [], ◌∷◌,
  if◌then◌else◌,
}
use bankr_integration.Js.Text.{Text, txt, ◌===◌, lower, trim, is_empty}
use bankr_integration.Js.Number.{Number, finite, pos, is_finite}
use bankr_integration.Js.Pattern.{
  test_whole, plus, is_digit, hex_prefixed, times, one, is_lower_hex,
}
use bankr_integration.Js.Json.{Json, undefined, bool, num, str, arr, Elems, nil, cons}
use bankr_integration.Js.Host.{Host}

pub data Read {ℓ} (A : Type ℓ) : Type ℓ where
  absent invalid : Read A
  present : A → Read A

-- `normalized`
unfoldable pub normalized : Text → Text
normalized value = lower (trim value)

-- `sameWallet`; `none` for `null`.
unfoldable pub same_wallet : Option Text → Text → Bool
same_wallet none b = false
same_wallet (some a) b = normalized a === normalized b

abbrev pub zero_address : Text
zero_address = txt "0x0000000000000000000000000000000000000000"

-- `verifiedWallet`
unfoldable pub verified_wallet : Option Text → Option Text
verified_wallet none = none
verified_wallet (some value) =
    let text = normalized value in
    if test_whole (hex_prefixed (times 40 (one is_lower_hex))) text && not (text === zero_address)
    then some text
    else none

-- `nonEmptyString`
unfoldable pub non_empty_string : Json → Option Text
non_empty_string (str s) = if is_empty (trim s) then none else some (trim s)
non_empty_string v = none

-- The texts of an array, if each element is one.
unfoldable pub all_strings : Elems → Option (List Text)
all_strings nil = some []
all_strings (cons v vs) = elim (non_empty_string v) [
  | none ↦ none
  | some s ↦ (elim (all_strings vs) [ none ↦ none | some ss ↦ some (s ∷ ss) ])
]

-- `stringArray`
unfoldable pub string_array : Json → Option (List Text)
string_array (arr xs) = elim (all_strings xs) [ some (s ∷ ss) ↦ some (s ∷ ss) | _ ↦ none ]
string_array v = none

read {ℓ} : {A : Type ℓ} → Option A → Read A
read none = invalid
read (some a) = present a

-- `optionalStringArray`
unfoldable pub optional_string_array : Json → Read (List Text)
unfolding read
optional_string_array undefined = absent
optional_string_array v = read (string_array v)

-- `optionalStringOrNumber`
unfoldable pub optional_string_or_number : Json → Read Json
optional_string_or_number undefined = absent
optional_string_or_number (str s) = if is_empty (trim s) then invalid else present (str (trim s))
optional_string_or_number (num n) = if is_finite n then present (num n) else invalid
optional_string_or_number v = invalid

-- `optionalBoolean`
unfoldable pub optional_boolean : Json → Read Bool
optional_boolean undefined = absent
optional_boolean (bool b) = present b
optional_boolean v = invalid

-- `Number.isInteger(n) && n > 0`
unfoldable pub is_positive_integer : Number → Bool
is_positive_integer (finite (pos n)) = n % 2 ^ 1074 == 0 && ltb 0 n
is_positive_integer n = false

-- `Number.isSafeInteger(n) && n >= 0`
unfoldable pub is_safe_index : Number → Bool
is_safe_index (finite (pos n)) = n % 2 ^ 1074 == 0 && leb n ((2 ^ 53 - 1) * 2 ^ 1074)
is_safe_index n = false

-- `optionalChainId`
unfoldable pub optional_chain_id : Json → Read Number
optional_chain_id undefined = absent
optional_chain_id (num n) = if is_positive_integer n then present n else invalid
optional_chain_id v = invalid

module _ (host : Host) where
  unfoldable pub read_date : Option Text → Read Text
  read_date none = invalid
  read_date (some text) = if is_finite (host.parse_date text) then present text else invalid

  -- `optionalIsoDate`
  unfoldable pub optional_iso_date : Json → Read Text
  unfolding read_date
  optional_iso_date undefined = absent
  optional_iso_date v = read_date (non_empty_string v)

  -- `registrationAgentIdMatches`; a parsed document has no bigint.
  unfoldable pub registration_agent_id_matches : Json → Text → Bool
  registration_agent_id_matches (num n) passport_id =
      is_safe_index n && host.print_number n === passport_id
  registration_agent_id_matches (str s) passport_id =
      test_whole (plus is_digit) (trim s) && trim s === passport_id
  registration_agent_id_matches v passport_id = false

-- A policy hash: `undefined`, or a text that is not blank.
unfoldable pub optional_string : Json → Read Text
unfolding read
optional_string undefined = absent
optional_string v = read (non_empty_string v)
