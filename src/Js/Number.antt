-- ===== src/Js/Number.antt =====
-- JavaScript numbers, as far as lib/vcdiff.js uses them: the integers, the infinities and NaN.
-- Fractions are left out: the file makes none, and tests an option only against integers.
use node_vcdiff.Base.{ℕ, zero, ◌-◌, ◌*◌, ◌%◌, ◌^◌, Bool, true, false, not, ltb, if◌then◌else◌}

-- `negsuc n` is -(n + 1).
pub data ℤ : Type 0 where
  pos : ℕ → ℤ
  negsuc : ℕ → ℤ

pub data Number : Type 0 where
  int : ℤ → Number
  infinity : Number
  minus_infinity : Number
  nan : Number

abbrev pub lt_int : ℤ → ℤ → Bool
lt_int (pos a) (pos b) = ltb a b
lt_int (pos a) (negsuc b) = false
lt_int (negsuc a) (pos b) = true
lt_int (negsuc a) (negsuc b) = ltb b a

-- `a < b`. It is false where either is NaN.
abbrev pub lt : Number → Number → Bool
lt (int a) (int b) = lt_int a b
lt (int a) infinity = true
lt minus_infinity (int b) = true
lt minus_infinity infinity = true
lt _ _ = false

-- `a <= b`, and `b >= a`
abbrev pub le : Number → Number → Bool
le (int a) (int b) = not (lt_int b a)
le (int a) infinity = true
le infinity infinity = true
le minus_infinity (int b) = true
le minus_infinity infinity = true
le minus_infinity minus_infinity = true
le _ _ = false

-- A number as a condition.
abbrev pub truthy : Number → Bool
truthy (int (pos zero)) = false
truthy nan = false
truthy _ = true

-- ToInt32 of a natural number.
unfoldable pub to_int32 : ℕ → ℤ
to_int32 n = let m = n % 2 ^ 32 in if ltb m (2 ^ 31) then pos m else negsuc (2 ^ 32 - m - 1)

-- `a << k`: a signed 32-bit result, and only the low five bits of `k` count.
unfoldable pub shift_left : ℕ → ℕ → ℤ
unfolding to_int32
shift_left a k = to_int32 (a * 2 ^ (k % 32))
