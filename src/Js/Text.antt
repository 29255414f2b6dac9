-- ===== src/Js/Text.antt =====
-- JavaScript strings as lists of UTF-16 code units, with the methods that the source calls.
-- `toLowerCase` maps the ASCII letters and leaves every other unit as it is.
use Prim.Native.Char.{code}
use bankr_integration.Prelude.{
  ℕ, zero, suc, ◌+◌, String, ◌≡◌, refl, ap₂, ◌↔◌, ◌⊎◌, Bool, true, false, ◌&&◌, ◌||◌, List, [], ◌∷◌,
  ◌++◌, reverse, arith, leb, ltb, ◌==◌, if◌then◌else◌, any, take,
}

abbrev pub Text : Type 0
Text = List ℕ

-- A literal of the source, all of whose characters are single code units.
unfoldable pub txt : String → Text
txt String.[] = []
txt (String.◌∷◌ c s) = code c ∷ txt s

infix 50 ◌===◌
unfoldable pub ◌===◌ : Text → Text → Bool
[] === [] = true
[] === (d ∷ t) = false
(c ∷ s) === [] = false
(c ∷ s) === (d ∷ t) = c == d && s === t

pub ===_sound : (s t : Text) → (s === t) ≡ true → s ≡ t
unfolding ◌===◌
===_sound [] [] h = refl
===_sound [] (d ∷ t) h = cc
===_sound (c ∷ s) [] h = cc
===_sound (c ∷ s) (d ∷ t) h = ground (arith, ===_sound s t)

pub ===_refl : (s : Text) → (s === s) ≡ true
unfolding ◌===◌
===_refl [] = refl
===_refl (c ∷ s) = ground (arith, ===_refl s)

pub ===_iff : (s t : Text) → ((s === t) ≡ true) ↔ (s ≡ t)
===_iff s t = (===_sound s t, λ e. rw e (===_refl t))

-- `xs.includes(x)`.
unfoldable pub includes : List Text → Text → Bool
includes xs x = any (λ y. y === x) xs

-- The white space and line terminators that `trim` removes.
unfoldable pub is_space : ℕ → Bool
is_space c =
    (leb 9 c && leb c 13)
    || c == 32
    || c == 160
    || c == 0x1680
    || (leb 0x2000 c && leb c 0x200a)
    || c == 0x2028
    || c == 0x2029
    || c == 0x202f
    || c == 0x205f
    || c == 0x3000
    || c == 0xfeff

trim_start : Text → Text
trim_start [] = []
trim_start (c ∷ s) = if is_space c then trim_start s else c ∷ s

unfoldable pub trim : Text → Text
unfolding trim_start is_space
trim s = reverse (trim_start (reverse (trim_start s)))

unfoldable pub is_empty : Text → Bool
is_empty [] = true
is_empty (c ∷ s) = false

unfoldable pub lower_unit : ℕ → ℕ
lower_unit c = if leb b'A' c && leb c b'Z' then c + 32 else c

unfoldable pub lower : Text → Text
unfolding lower_unit
lower [] = []
lower (c ∷ s) = lower_unit c ∷ lower s

lower_unit_idem : (c : ℕ) → lower_unit (lower_unit c) ≡ lower_unit c
unfolding lower_unit
lower_unit_idem c = ground arith

-- Lower-casing twice is lower-casing once.
pub lower_idem : (s : Text) → lower (lower s) ≡ lower s
unfolding lower
lower_idem [] = refl
lower_idem (c ∷ s) = ap₂ ◌∷◌ (lower_unit_idem c) (lower_idem s)

unfoldable pub starts_with : Text → Text → Bool
starts_with s [] = true
starts_with [] (d ∷ t) = false
starts_with (c ∷ s) (d ∷ t) = c == d && starts_with s t

-- `xs.join(sep)`.
unfoldable pub join : Text → List Text → Text
join sep [] = []
join sep (x ∷ []) = x
join sep (x ∷ y ∷ xs) = x ++ (sep ++ join sep (y ∷ xs))

-- The order of `sort()` with no comparison function: by code units.
unfoldable pub text_le : Text → Text → Bool
text_le [] t = true
text_le (c ∷ s) [] = false
text_le (c ∷ s) (d ∷ t) = ltb c d || (c == d && text_le s t)

unfoldable pub insert_by {ℓ} : {A : Type ℓ} → (A → A → Bool) → A → List A → List A
insert_by le x [] = x ∷ []
insert_by le x (y ∷ ys) = if le x y then x ∷ y ∷ ys else y ∷ insert_by le x ys

-- `xs.sort(compare)`: a stable sort.
unfoldable pub sort_by {ℓ} : {A : Type ℓ} → (A → A → Bool) → List A → List A
unfolding insert_by
sort_by le [] = []
sort_by le (x ∷ xs) = insert_by le x (sort_by le xs)

-- `s.padEnd(n, "0").slice(0, n)`.
pad_zeros : ℕ → Text
pad_zeros zero = []
pad_zeros (suc n) = b'0' ∷ pad_zeros n

unfoldable pub pad_end_64 : Text → Text
unfolding pad_zeros
pad_end_64 s = take 64 (s ++ pad_zeros 64)

-- What `includes` decides.
abbrev pub Listed : Text → List Text → Type 0
Listed x [] = ⊥
Listed x (y ∷ ys) = (y ≡ x) ⊎ Listed x ys

pub includes-Listed : (x : Text) (xs : List Text) → includes xs x ≡ true → Listed x xs
unfolding includes
includes-Listed x [] h = cc
includes-Listed x (y ∷ ys) h = ground (arith, ===_iff y x, includes-Listed x ys)

pub Listed-includes : (x : Text) (xs : List Text) → Listed x xs → includes xs x ≡ true
unfolding includes
Listed-includes x [] h = absurd h
Listed-includes x (y ∷ ys) h = ground (arith, ===_iff y x, Listed-includes x ys)
