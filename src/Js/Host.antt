-- ===== src/Js/Host.antt =====
-- What the program takes from its host and whose code is not in the repository: number and date
-- conversion, the digests of `node:crypto`, and the locale order of strings.
use bankr_integration.Prelude.{Bool}
use bankr_integration.Js.Text.{Text}
use bankr_integration.Js.Number.{Number}

pub record Host : Type 0 where
  -- `Number(s)` of a string, and `String(n)` of a number.
  pub parse_number : Text → Number
  pub print_number : Number → Text
  -- `Date.parse(s)`, NaN for a string that is no date, and `toISOString()`.
  pub parse_date : Text → Number
  pub print_date : Number → Text
  -- `createHash("sha256").update(s).digest("hex")`.
  pub sha256_hex : Text → Text
  -- `createHmac("sha256", key).update(s).digest("hex")`, the key first.
  pub hmac_hex : Text → Text → Text
  -- `a.localeCompare(b) <= 0`.
  pub locale_le : Text → Text → Bool
