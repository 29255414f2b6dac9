-- ===== src/Js/Number.antt =====
-- JavaScript numbers. Every finite double is a whole multiple of 2 ^ -1074: `finite z` is the double
-- z * 2 ^ -1074, so that comparing doubles is comparing the whole numbers. The two zeros are one,
-- since no modelled code tells them apart.
use bankr_integration.Prelude.{
  ℕ, suc, ◌+◌, ◌*◌, ◌^◌, ◌≡◌, refl, Bool, true, false, ◌||◌, arith, ltb, ◌==◌,
}

-- `negsuc n` is -(n + 1).
pub data ℤ : Type 0 where
  pos : ℕ → ℤ
  negsuc : ℕ → ℤ

abbrev pub pos_part : ℤ → ℕ
pos_part (pos n) = n
pos_part (negsuc n) = 0

abbrev pub neg_part : ℤ → ℕ
neg_part (pos n) = 0
neg_part (negsuc n) = suc n

abbrev pub ltb_ℤ : ℤ → ℤ → Bool
ltb_ℤ a b = ltb (pos_part a + neg_part b) (pos_part b + neg_part a)

abbrev pub eqb_ℤ : ℤ → ℤ → Bool
eqb_ℤ a b = pos_part a + neg_part b == pos_part b + neg_part a

pub data Number : Type 0 where
  nan : Number
  minus_infinity : Number
  finite : ℤ → Number
  plus_infinity : Number

-- `a < b`; false when either is NaN.
unfoldable pub num_lt : Number → Number → Bool
num_lt nan b = false
num_lt minus_infinity nan = false
num_lt minus_infinity minus_infinity = false
num_lt minus_infinity b = true
num_lt (finite a) (finite b) = ltb_ℤ a b
num_lt (finite a) plus_infinity = true
num_lt (finite a) b = false
num_lt plus_infinity b = false

-- `a === b`; false when either is NaN.
unfoldable pub num_eq : Number → Number → Bool
num_eq minus_infinity minus_infinity = true
num_eq (finite a) (finite b) = eqb_ℤ a b
num_eq plus_infinity plus_infinity = true
num_eq a b = false

-- `a <= b`; false when either is NaN.
unfoldable pub num_le : Number → Number → Bool
unfolding num_lt num_eq
num_le a b = num_lt a b || num_eq a b

unfoldable pub is_finite : Number → Bool
is_finite (finite a) = true
is_finite a = false

-- `a > b || …` and `a <= b` are not opposites: both are false at NaN.
pub num_lt_irrefl : (a : Number) → num_lt a a ≡ false
unfolding num_lt
num_lt_irrefl nan = refl
num_lt_irrefl minus_infinity = refl
num_lt_irrefl (finite a) = ground arith
num_lt_irrefl plus_infinity = refl

pub num_eq_sound : (a b : Number) → num_eq a b ≡ true → a ≡ b
unfolding num_eq
num_eq_sound minus_infinity minus_infinity h = refl
num_eq_sound (finite (pos a)) (finite (pos b)) h = ground arith
num_eq_sound (finite (pos a)) (finite (negsuc b)) h = ground arith
num_eq_sound (finite (negsuc a)) (finite (pos b)) h = ground arith
num_eq_sound (finite (negsuc a)) (finite (negsuc b)) h = ground arith
num_eq_sound plus_infinity plus_infinity h = refl
num_eq_sound a b h = cc

-- The double of a natural number below 2 ^ 53.
unfoldable pub whole : ℕ → Number
whole n = finite (pos (n * 2 ^ 1074))
