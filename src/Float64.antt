-- ===== src/Float64.antt =====
-- Go's float64, which the code computes scores with: the type, its operations, and the laws of
-- IEEE arithmetic that the proofs rely on. `decimal m k` is the literal m / 10 ^ k.
pub mod Fixed
use rms_gate.Base.{ℕ, ◌≡◌, Bool, true, false, ◌≤◌, ℤ, pos, pos_part, neg_part, ◌+ℤ◌, ◌-ℤ◌, ◌≤ℤ◌}

pub record Floats : Type 1 where
  pub Float : Type 0
  pub of_int : ℤ → Float
  pub decimal : ℕ → ℕ → Float
  pub fadd : Float → Float → Float
  pub fsub : Float → Float → Float
  pub fmul : Float → Float → Float
  pub fdiv : Float → Float → Float
  pub sqrt : Float → Float
  pub flt : Float → Float → Bool
  pub fle : Float → Float → Bool
  pub feq : Float → Float → Bool
  pub to_int : Float → ℤ

-- Integers of at most a million in size are exact, and so are their sums and differences.
abbrev pub IsSmall : ℤ → Type 0
IsSmall a = (pos_part a ≤ 1_000_000) × (neg_part a ≤ 1_000_000)

pub record FloatLaws (fl : Floats) : Type 0 where
  pub add_exact :
      (a b : ℤ) → IsSmall a → IsSmall b → fl.fadd (fl.of_int a) (fl.of_int b) ≡ fl.of_int (a +ℤ b)
  pub sub_exact :
      (a b : ℤ) → IsSmall a → IsSmall b → fl.fsub (fl.of_int a) (fl.of_int b) ≡ fl.of_int (a -ℤ b)
  pub to_int_exact : (a : ℤ) → IsSmall a → fl.to_int (fl.of_int a) ≡ a
  -- A number (x == x fails on NaN alone) that is neither below 0 nor above 100 truncates into
  -- that range.
  pub to_int_range :
      (x : fl.Float)
      → fl.feq x x ≡ true
      → fl.flt x (fl.of_int (pos 0)) ≡ false
      → fl.flt (fl.of_int (pos 100)) x ≡ false
      → (pos 0 ≤ℤ fl.to_int x) × (fl.to_int x ≤ℤ pos 100)
