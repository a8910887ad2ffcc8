-- ===== src/Base/Number.antt =====
-- Numbers of JavaScript. Every finite double is a dyadic rational, an integer over a power of two,
-- and is modelled as one; the two zeros are one number here.
use Prim.Native.Nat.{ℕ, suc, ◌+◌, ◌*◌, ◌/◌, ◌%◌, ◌^◌}
use mathlib.Core.Bool.{Bool, true, false, ◌&&◌, not}
use kuviewer.Base.Tests.{◌==◌, leb}

-- `negsuc n` is -(n + 1).
pub data ℤ : Type 0 where
  pos : ℕ → ℤ
  negsuc : ℕ → ℤ

abbrev pub pos_part : ℤ → ℕ
pos_part (pos n) = n
pos_part (negsuc n) = 0

abbrev pub neg_part : ℤ → ℕ
neg_part (pos n) = 0
neg_part (negsuc n) = suc n

-- `dyadic n k` is n / 2 ^ k; `infinite true` is Infinity, `infinite false` is -Infinity.
pub data Number : Type 0 where
  dyadic : ℤ → ℕ → Number
  infinite : Bool → Number
  nan : Number

abbrev pub whole : ℕ → Number
whole n = dyadic (pos n) 0

abbrev pub is_finite : Number → Bool
is_finite (dyadic n k) = true
is_finite _ = false

abbrev pub is_integer : Number → Bool
is_integer (dyadic (pos n) k) = n % 2 ^ k == 0
is_integer (dyadic (negsuc n) k) = suc n % 2 ^ k == 0
is_integer _ = false

-- `Math.max(0, Math.trunc(x))` of a finite number.
abbrev pub count_of : Number → ℕ
count_of (dyadic (pos n) k) = n / 2 ^ k
count_of _ = 0

-- `a <= b`: false when either side is NaN.
abbrev pub num_le : Number → Number → Bool
num_le (dyadic a k) (dyadic b l) =
    leb (pos_part a * 2 ^ l + neg_part b * 2 ^ k) (pos_part b * 2 ^ k + neg_part a * 2 ^ l)
num_le (dyadic a k) (infinite up) = up
num_le (infinite up) (dyadic b l) = not up
num_le (infinite true) (infinite up) = up
num_le (infinite false) (infinite up) = true
num_le _ _ = false

-- `a < b`.
abbrev pub num_lt : Number → Number → Bool
num_lt a b = num_le a b && not (num_le b a)

-- `a === b`.
abbrev pub num_eq : Number → Number → Bool
num_eq a b = num_le a b && num_le b a
