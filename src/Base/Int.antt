-- ===== src/Base/Int.antt =====
-- Signed integers over the native numbers: Go's `int` and `int64` where the code does not overflow.
use Prim.Native.Nat.{ℕ, zero, suc, ◌+◌, ◌-◌, ◌*◌, ◌%◌, ◌^◌, ◌≤◌}
use mathlib.Core.Path.{◌≡◌, ap}
use mathlib.Core.Bool.{Bool, true}
use native.Mathlib.Omega.{arith}
use rms_gate.Base.Tests.{ltb, leb, ◌==◌, if◌then◌else◌}

-- `negsuc n` is -(n + 1).
pub data ℤ : Type 0 where
  pos : ℕ → ℤ
  negsuc : ℕ → ℤ

abbrev pub pos_part : ℤ → ℕ
pos_part (pos n) = n
pos_part (negsuc n) = 0

abbrev pub neg_part : ℤ → ℕ
neg_part (pos n) = 0
neg_part (negsuc n) = suc n

-- a - b, as an integer.
abbrev pub sub_ℕ : ℕ → ℕ → ℤ
sub_ℕ a b = if leb b a then pos (a - b) else negsuc (b - a - 1)

-- The integer -a.
abbrev pub minus : ℕ → ℤ
minus zero = pos 0
minus (suc a) = negsuc a

infixl 65 ◌+ℤ◌ ◌-ℤ◌
infix 50 ◌≤ℤ◌
unfoldable pub ◌+ℤ◌ : ℤ → ℤ → ℤ
a +ℤ b = sub_ℕ (pos_part a + pos_part b) (neg_part a + neg_part b)

unfoldable pub ◌-ℤ◌ : ℤ → ℤ → ℤ
a -ℤ b = sub_ℕ (pos_part a + neg_part b) (neg_part a + pos_part b)

abbrev pub ◌≤ℤ◌ : ℤ → ℤ → Type 0
a ≤ℤ b = pos_part a + neg_part b ≤ pos_part b + neg_part a

abbrev pub ltb_ℤ : ℤ → ℤ → Bool
ltb_ℤ a b = ltb (pos_part a + neg_part b) (pos_part b + neg_part a)

abbrev pub leb_ℤ : ℤ → ℤ → Bool
leb_ℤ a b = leb (pos_part a + neg_part b) (pos_part b + neg_part a)

infix 50 ◌==ℤ◌
abbrev pub ◌==ℤ◌ : ℤ → ℤ → Bool
a ==ℤ b = (pos_part a + neg_part b) == (pos_part b + neg_part a)

-- The int64 with these 64 bits.
abbrev pub signed_64 : ℕ → ℤ
signed_64 a = if ltb a (2 ^ 63) then pos a else negsuc (2 ^ 64 - 1 - a)

-- The int64 that an integer wraps around to.
unfoldable pub wrap_64 : ℤ → ℤ
wrap_64 (pos n) = signed_64 (n % 2 ^ 64)
wrap_64 (negsuc n) = signed_64 (2 ^ 64 - 1 - n % 2 ^ 64)

-- The product of an int64 with a number, and the sum.
unfoldable pub mul_64 : ℤ → ℕ → ℤ
unfolding wrap_64
mul_64 (pos n) k = wrap_64 (pos (n * k))
mul_64 (negsuc n) k = wrap_64 (minus (suc n * k))

unfoldable pub add_64 : ℤ → ℤ → ℤ
unfolding wrap_64
add_64 a b = wrap_64 (a +ℤ b)

pub eq_pos : (z : ℤ) (n : ℕ) → (z ==ℤ pos n) ≡ true → z ≡ pos n
eq_pos (pos a) n e = ap pos (ground (arith, e))
eq_pos (negsuc a) n e = absurd (ground (arith, e))
