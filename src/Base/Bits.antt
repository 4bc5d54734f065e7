-- ===== src/Base/Bits.antt =====
-- `&` with a mask of ones is a remainder, and `|` of numbers that share no bit is a sum.
use Prim.Native.Nat.{
  ℕ, zero, suc, ◌+◌, ◌*◌, ◌/◌, ◌%◌, ◌^◌, ◌≤◌, ◌<◌, min, max, bit_and, bit_or, digits,
  bit_and-bitwise, bit_or-bitwise,
}
use mathlib.Core.Path.{◌≡◌, refl, ◌∙◌}
use native.Mathlib.Omega.{arith}
use native.Mathlib.Nat.{pow-suc}

-- Both operations go through their first argument digit by digit; the fuel is the argument itself.
abbrev and_rec : ℕ → ℕ → ℕ → ℕ
and_rec = digits (λ b. zero) min

and_rec_fuel : (n m a b : ℕ) → a ≤ n → a ≤ m → and_rec n a b ≡ and_rec m a b
and_rec_fuel zero zero a b p q = refl
and_rec_fuel zero (suc m) zero b p q = refl
and_rec_fuel zero (suc m) (suc a) b p q = absurd (omega arith)
and_rec_fuel (suc n) zero zero b p q = refl
and_rec_fuel (suc n) zero (suc a) b p q = absurd (omega arith)
and_rec_fuel (suc n) (suc m) zero b p q = refl
and_rec_fuel (suc n) (suc m) (suc a) b p q =
    omega (arith, and_rec_fuel n m (suc a / 2) (b / 2) (omega arith) (omega arith))

bit_and_halves : (a b : ℕ) → bit_and a b ≡ bit_and (a / 2) (b / 2) * 2 + min (a % 2) (b % 2)
bit_and_halves zero b = omega (arith, bit_and-bitwise 0 b, bit_and-bitwise 0 (b / 2))
bit_and_halves (suc a) b = omega (
  arith,
  bit_and-bitwise (suc a) b,
  bit_and-bitwise (suc a / 2) (b / 2),
  and_rec_fuel a (suc a / 2) (suc a / 2) (b / 2) (omega arith) (omega arith),
)

abbrev or_rec : ℕ → ℕ → ℕ → ℕ
or_rec = digits (λ b. b) max

or_rec_fuel : (n m a b : ℕ) → a ≤ n → a ≤ m → or_rec n a b ≡ or_rec m a b
or_rec_fuel zero zero a b p q = refl
or_rec_fuel zero (suc m) zero b p q = refl
or_rec_fuel zero (suc m) (suc a) b p q = absurd (omega arith)
or_rec_fuel (suc n) zero zero b p q = refl
or_rec_fuel (suc n) zero (suc a) b p q = absurd (omega arith)
or_rec_fuel (suc n) (suc m) zero b p q = refl
or_rec_fuel (suc n) (suc m) (suc a) b p q =
    omega (arith, or_rec_fuel n m (suc a / 2) (b / 2) (omega arith) (omega arith))

bit_or_halves : (a b : ℕ) → bit_or a b ≡ bit_or (a / 2) (b / 2) * 2 + max (a % 2) (b % 2)
bit_or_halves zero b = omega (arith, bit_or-bitwise 0 b, bit_or-bitwise 0 (b / 2))
bit_or_halves (suc a) b = omega (
  arith,
  bit_or-bitwise (suc a) b,
  bit_or-bitwise (suc a / 2) (b / 2),
  or_rec_fuel a (suc a / 2) (suc a / 2) (b / 2) (omega arith) (omega arith),
)

zero-bit_or : (b : ℕ) → bit_or 0 b ≡ b
zero-bit_or b = bit_or-bitwise 0 b

bit_and-zero_bound : (n a : ℕ) → a ≤ n → bit_and a 0 ≡ 0
bit_and-zero_bound n zero h = refl
bit_and-zero_bound zero (suc a) h = absurd (omega arith)
bit_and-zero_bound (suc n) (suc a) h =
    omega (arith, bit_and_halves (suc a) 0, bit_and-zero_bound n (suc a / 2) (omega arith))

bit_and-one : (a : ℕ) → bit_and a 1 ≡ a % 2
bit_and-one a = omega (arith, bit_and_halves a 1, bit_and-zero_bound (a / 2) (a / 2) (omega arith))

-- A mask with one more bit at its lower end.
bit_and_3 : (a : ℕ) → bit_and a 3 ≡ a % 4
bit_and_3 a = omega (arith, bit_and_halves a 3, bit_and-one (a / 2))

bit_and_7 : (a : ℕ) → bit_and a 7 ≡ a % 8
bit_and_7 a = omega (arith, bit_and_halves a 7, bit_and_3 (a / 2))

bit_and_15 : (a : ℕ) → bit_and a 15 ≡ a % 16
bit_and_15 a = omega (arith, bit_and_halves a 15, bit_and_7 (a / 2))

bit_and_31 : (a : ℕ) → bit_and a 31 ≡ a % 32
bit_and_31 a = omega (arith, bit_and_halves a 31, bit_and_15 (a / 2))

bit_and_63 : (a : ℕ) → bit_and a 63 ≡ a % 64
bit_and_63 a = omega (arith, bit_and_halves a 63, bit_and_31 (a / 2))

pub bit_and_127 : (a : ℕ) → bit_and a 0x7f ≡ a % 128
bit_and_127 a = omega (arith, bit_and_halves a 127, bit_and_63 (a / 2))

-- A number below `2 ^ s` and a multiple of `2 ^ s`.
pub bit_or-disjoint : (s r m : ℕ) → r < 2 ^ s → bit_or r (m * 2 ^ s) ≡ r + m * 2 ^ s
bit_or-disjoint zero r m h = let e : r ≡ 0 = omega arith in rw e (zero-bit_or (m * 1) ∙ omega arith)
bit_or-disjoint (suc s) r m h =
    let double : m * 2 ^ suc s ≡ m * 2 ^ s * 2 = simp pow-suc (omega arith) in
    let half : m * 2 ^ s * 2 / 2 ≡ m * 2 ^ s = omega arith in
    let below : r / 2 < 2 ^ s = omega (arith, pow-suc 2 s) in
    let split = bit_or_halves r (m * 2 ^ s * 2) in
    rw double (split ∙ rw half (omega (arith, bit_or-disjoint s (r / 2) m below)))

pub bit_or_128 : (b : ℕ) → b < 128 → bit_or b 0x80 ≡ b + 128
bit_or_128 b h = bit_or-disjoint 7 b 1 h

bit_and-even : (a m : ℕ) → bit_and a (m * 2) ≡ bit_and (a / 2) m * 2
bit_and-even a m =
    let half : m * 2 / 2 ≡ m = omega arith in
    let even : m * 2 % 2 ≡ 0 = omega arith in
    bit_and_halves a (m * 2) ∙ rw half (omega (arith, even))

bit_and_2 : (a : ℕ) → bit_and a 2 ≡ a / 2 % 2 * 2
bit_and_2 a = omega (arith, bit_and-even a 1, bit_and-one (a / 2))

bit_and_4 : (a : ℕ) → bit_and a 4 ≡ a / 4 % 2 * 4
bit_and_4 a = omega (arith, bit_and-even a 2, bit_and_2 (a / 2))

bit_and_8 : (a : ℕ) → bit_and a 8 ≡ a / 8 % 2 * 8
bit_and_8 a = omega (arith, bit_and-even a 4, bit_and_4 (a / 2))

bit_and_16 : (a : ℕ) → bit_and a 16 ≡ a / 16 % 2 * 16
bit_and_16 a = omega (arith, bit_and-even a 8, bit_and_8 (a / 2))

bit_and_32 : (a : ℕ) → bit_and a 32 ≡ a / 32 % 2 * 32
bit_and_32 a = omega (arith, bit_and-even a 16, bit_and_16 (a / 2))

bit_and_64 : (a : ℕ) → bit_and a 64 ≡ a / 64 % 2 * 64
bit_and_64 a = omega (arith, bit_and-even a 32, bit_and_32 (a / 2))

pub bit_and_128 : (b : ℕ) → b < 256 → bit_and b 0x80 ≡ b / 128 * 128
bit_and_128 b h = omega (arith, bit_and-even b 64, bit_and_64 (b / 2))
