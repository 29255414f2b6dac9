-- ===== src/Js/Json.antt =====
-- Values of type `unknown`: what JSON text parses to, and `undefined`. An object is the list of its
-- own properties in order; no two of them have one key.
use bankr_integration.Prelude.{
  ℕ, ◌+◌, ◌-◌, ◌/◌, ◌%◌, Bool, true, false, ◌||◌, List, [], ◌∷◌, ◌++◌, ltb, ◌==◌, if◌then◌else◌,
}
use bankr_integration.Js.Text.{Text, txt, ◌===◌, join, trim}
use bankr_integration.Js.Number.{Number, nan, finite, pos, whole, is_finite}
use bankr_integration.Js.Host.{Host}

mutual
  pub data Json : Type 0 where
    undefined : Json
    null : Json
    bool : Bool → Json
    num : Number → Json
    str : Text → Json
    arr : Elems → Json
    obj : Fields → Json

  pub data Elems : Type 0 where
    nil : Elems
    cons : Json → Elems → Elems

  pub data Fields : Type 0 where
    end : Fields
    field : Text → Json → Fields → Fields

-- `o[key]`: `undefined` for a key that is not there.
unfoldable pub get : Text → Fields → Json
get key end = undefined
get key (field k v fs) = if k === key then v else get key fs

-- `Object.hasOwn(o, key)`.
unfoldable pub has : Text → Fields → Bool
has key end = false
has key (field k v fs) = k === key || has key fs

-- `{ ...o, [key]: v }`.
unfoldable pub put : Text → Json → Fields → Fields
put key v end = field key v end
put key v (field k w fs) = if k === key then field k v fs else field k w (put key v fs)

unfoldable pub is_undefined : Json → Bool
is_undefined undefined = true
is_undefined v = false

-- `v ?? d`.
unfoldable pub or_else : Json → Json → Json
or_else undefined d = d
or_else null d = d
or_else v d = v

unfoldable pub is_string : Json → Bool
is_string (str s) = true
is_string v = false

unfoldable pub strings : List Text → Elems
strings [] = nil
strings (x ∷ xs) = cons (str x) (strings xs)

module _ (host : Host) where
  -- `String(v)`; an array joins its elements with commas, `null` and `undefined` left out.
  unfoldable mutual
    pub text_of : Json → Text
    text_of undefined = txt "undefined"
    text_of null = txt "null"
    text_of (bool true) = txt "true"
    text_of (bool false) = txt "false"
    text_of (num n) = host.print_number n
    text_of (str s) = s
    text_of (arr xs) = join (txt ",") (texts_of xs)
    text_of (obj fs) = txt "[object Object]"

    pub texts_of : Elems → List Text
    texts_of nil = []
    texts_of (cons undefined xs) = [] ∷ texts_of xs
    texts_of (cons null xs) = [] ∷ texts_of xs
    texts_of (cons v xs) = text_of v ∷ texts_of xs

  -- `Number(v)`.
  unfoldable pub to_number : Json → Number
  to_number undefined = nan
  to_number null = finite (pos 0)
  to_number (bool true) = whole 1
  to_number (bool false) = finite (pos 0)
  to_number (num n) = n
  to_number v = host.parse_number (text_of v)

  -- `String(v ?? "").trim()`.
  unfoldable pub clean : Json → Text
  clean v = trim (text_of (or_else v (str [])))

hex_digit : ℕ → ℕ
hex_digit d = if ltb d 10 then b'0' + d else b'a' + (d - 10)

-- One code unit inside a JSON string.
escape : ℕ → Text
unfolding hex_digit
escape c =
    if c == 34
    then 92 ∷ 34 ∷ []
    else if c == 92
    then 92 ∷ 92 ∷ []
    else if c == 8
    then 92 ∷ b'b' ∷ []
    else if c == 9
    then 92 ∷ b't' ∷ []
    else if c == 10
    then 92 ∷ b'n' ∷ []
    else if c == 12
    then 92 ∷ b'f' ∷ []
    else if c == 13
    then 92 ∷ b'r' ∷ []
    else if ltb c 32
    then 92 ∷ b'u' ∷ b'0' ∷ b'0' ∷ hex_digit (c / 16) ∷ hex_digit (c % 16) ∷ []
    else c ∷ []

escapes : Text → Text
unfolding escape
escapes [] = 34 ∷ []
escapes (c ∷ s) = escape c ++ escapes s

-- `JSON.stringify(s)` of a string.
unfoldable pub quote : Text → Text
unfolding escapes
quote s = 34 ∷ escapes s

braces : List Text → Text
braces xs = txt "{" ++ (join (txt ",") xs ++ txt "}")

brackets : List Text → Text
brackets xs = txt "[" ++ (join (txt ",") xs ++ txt "]")

module _ (host : Host) where
  -- `JSON.stringify(v)`; a property that is undefined is left out, an element is `null`.
  unfoldable mutual
    unfolding braces brackets

    pub stringify : Json → Text
    stringify undefined = txt "null"
    stringify null = txt "null"
    stringify (bool true) = txt "true"
    stringify (bool false) = txt "false"
    stringify (num n) = if is_finite n then host.print_number n else txt "null"
    stringify (str s) = quote s
    stringify (arr xs) = brackets (stringify_elems xs)
    stringify (obj fs) = braces (stringify_fields fs)

    pub stringify_elems : Elems → List Text
    stringify_elems nil = []
    stringify_elems (cons v xs) = stringify v ∷ stringify_elems xs

    pub stringify_fields : Fields → List Text
    stringify_fields end = []
    stringify_fields (field k undefined fs) = stringify_fields fs
    stringify_fields (field k v fs) = (quote k ++ (txt ":" ++ stringify v)) ∷ stringify_fields fs

insert_field : (Text → Text → Bool) → Text → Json → Fields → Fields
insert_field le k v end = field k v end
insert_field le k v (field j w fs) =
    if le k j then field k v (field j w fs) else field j w (insert_field le k v fs)

module _ (host : Host) where
  -- The `stable` of the identity kernel and of the MCP gateway: keys in locale order.
  unfoldable mutual
    unfolding insert_field

    pub stable : Json → Json
    stable (arr xs) = arr (stable_elems xs)
    stable (obj fs) = obj (stable_fields fs)
    stable v = v

    pub stable_elems : Elems → Elems
    stable_elems nil = nil
    stable_elems (cons v xs) = cons (stable v) (stable_elems xs)

    pub stable_fields : Fields → Fields
    stable_fields end = end
    stable_fields (field k v fs) = insert_field host.locale_le k (stable v) (stable_fields fs)

  -- The `sha256` of those files.
  unfoldable pub sha256 : Json → Text
  sha256 v = host.sha256_hex (stringify host (stable v))
