-- ===== src/Base/Word.antt =====
-- Go's 32-bit signed integers as bit patterns below 2 ^ 32.
use Prim.Native.Nat.{ℕ, ◌+◌, ◌-◌, ◌%◌}
use mathlib.Core.Bool.{Bool}
use rms_gate.Base.Tests.{ltb, leb, if◌then◌else◌}
use rms_gate.Base.Int.{ℤ, pos, negsuc}

abbrev pub two_31 : ℕ
two_31 = 0x8000_0000

abbrev pub two_32 : ℕ
two_32 = 0x1_0000_0000

-- `int32(x)` of an `int`.
abbrev pub int32 : ℤ → ℕ
int32 (pos n) = n % two_32
int32 (negsuc n) = two_32 - 1 - n % two_32

-- `x + 1` and `x - 1` on int32.
abbrev pub inc_32 : ℕ → ℕ
inc_32 a = (a + 1) % two_32

abbrev pub dec_32 : ℕ → ℕ
dec_32 a = (a + two_32 - 1) % two_32

-- `a < b` and `a <= b` on int32: adding 2 ^ 31 turns the signed order into the unsigned one.
abbrev pub lt_32 : ℕ → ℕ → Bool
lt_32 a b = ltb ((a + two_31) % two_32) ((b + two_31) % two_32)

abbrev pub le_32 : ℕ → ℕ → Bool
le_32 a b = leb ((a + two_31) % two_32) ((b + two_31) % two_32)

-- The integer that a pattern stands for.
abbrev pub signed_32 : ℕ → ℤ
signed_32 a = if ltb a two_31 then pos a else negsuc (two_32 - 1 - a)
