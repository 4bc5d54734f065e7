-- ===== src/Plugin/Durations/Digits.antt =====
-- Numbers that are written digit by digit and read back.
use rms_gate.Base.{
  ℕ, zero, suc, ◌+◌, ◌-◌, ◌*◌, ◌/◌, ◌%◌, ◌^◌, ◌<◌, ◌≡◌, refl, sym, ap, ◌∙◌, inl, inr, true, false,
  some, List, [], ◌∷◌, ◌++◌, arith, ltb, Bool-cases, pos, is_space,
}
use native.Mathlib.Nat.{pow-suc}
use rms_gate.Plugin.Durations.{
  skip_space, is_digit, digits_value, scan_digits, scan_int, split_last, decimal_loop,
}

decimal_loop-more :
    (f n : ℕ) (out : List ℕ)
    → ltb n 10 ≡ false
    → decimal_loop (suc f) n out ≡ decimal_loop f (n / 10) ((b'0' + n % 10) ∷ out)
unfolding decimal_loop
decimal_loop-more f n out e = rw e refl

digits_value-digit :
    (n : ℕ) (out : List ℕ) → digits_value (n / 10) ((b'0' + n % 10) ∷ out) ≡ digits_value n out
unfolding digits_value
digits_value-digit n out =
    let whole : n / 10 * 10 + (b'0' + n % 10 - b'0') ≡ n = omega arith in
    ground (arith, ap (λ m. digits_value m out) whole)

-- Reading what `decimal_loop` writes goes on behind it with the number.
digits_value-decimal :
    (f n : ℕ) (out : List ℕ)
    → n < 10 ^ suc f
    → digits_value 0 (decimal_loop (suc f) n out) ≡ digits_value n out
unfolding digits_value decimal_loop
digits_value-decimal zero n out h = ground arith
digits_value-decimal (suc f) n out h = elim (Bool-cases (ltb n 10)) [
  | inl e ↦ ground arith
  | inr e ↦
      let small : n / 10 < 10 ^ suc f = omega (arith, pow-suc 10 (suc f)) in
      ap (digits_value 0) (decimal_loop-more (suc f) n out e)
      ∙ digits_value-decimal f (n / 10) ((b'0' + n % 10) ∷ out) small
      ∙ digits_value-digit n out
]

-- What is written starts with a digit.
decimal-digit :
    (f n : ℕ) (out : List ℕ)
    → n < 10 ^ suc f
    → (c : ℕ) × (s : List ℕ) × (decimal_loop (suc f) n out ≡ c ∷ s) × (is_digit c ≡ true)
unfolding decimal_loop
decimal-digit zero n out h = (b'0' + n, out, ground arith, ground arith)
decimal-digit (suc f) n out h = elim (Bool-cases (ltb n 10)) [
  | inl e ↦ (b'0' + n, out, rw e refl, ground arith)
  | inr e ↦
      let small : n / 10 < 10 ^ suc f = omega (arith, pow-suc 10 (suc f)) in
      let (c, s, q, d) = decimal-digit f (n / 10) ((b'0' + n % 10) ∷ out) small in
      (c, s, decimal_loop-more (suc f) n out e ∙ q, d)
]

-- A text that stops a number.
abbrev Stops : List ℕ → Type 0
Stops [] = Unit
Stops (c ∷ s) = is_digit c ≡ false

digits_value-Stops : (n : ℕ) (out : List ℕ) → Stops out → digits_value n out ≡ n
unfolding digits_value
digits_value-Stops n [] h = refl
digits_value-Stops n (c ∷ s) h = rw h refl

skip_space-digit : (c : ℕ) (s : List ℕ) → is_digit c ≡ true → skip_space (c ∷ s) ≡ some (c ∷ s)
unfolding skip_space is_space
skip_space-digit c s d = ground arith

scan_digits-plain :
    (n c : ℕ) (s : List ℕ)
    → is_digit c ≡ true
    → digits_value 0 (c ∷ s) ≡ n
    → n < 2 ^ 63
    → scan_digits false (c ∷ s) ≡ some (pos n)
unfolding scan_digits
scan_digits-plain n c s d e h = ground arith

scan_int-digits :
    (n c : ℕ) (s : List ℕ)
    → is_digit c ≡ true
    → digits_value 0 (c ∷ s) ≡ n
    → n < 2 ^ 63
    → scan_int (c ∷ s) ≡ some (pos n)
unfolding scan_int
scan_int-digits n c s d e h =
    rw (skip_space-digit c s d, scan_int) (ground (arith, scan_digits-plain n c s d e h))

-- A printed number is read back, whatever follows that is no digit.
pub scan_int-decimal :
    (n : ℕ) (out : List ℕ)
    → n < 2 ^ 63
    → Stops out
    → scan_int (decimal_loop 20 n out) ≡ some (pos n)
scan_int-decimal n out h stop =
    let (c, s, q, d) = decimal-digit 19 n out (omega arith) in
    let value : digits_value 0 (c ∷ s) ≡ n =
      ap (digits_value 0) (sym q)
      ∙ digits_value-decimal 19 n out (omega arith)
      ∙ digits_value-Stops n out stop in
    ap scan_int q ∙ scan_int-digits n c s d value h

pub split_last-end : (c : ℕ) (s : List ℕ) → split_last (s ++ (c ∷ [])) ≡ some (s, c)
unfolding split_last
split_last-end c [] = refl
split_last-end c (x ∷ []) = refl
split_last-end c (x ∷ y ∷ s) = ground (arith, split_last-end c (y ∷ s))

pub decimal_loop-append :
    (f n : ℕ) (out more : List ℕ) → decimal_loop f n out ++ more ≡ decimal_loop f n (out ++ more)
unfolding decimal_loop
decimal_loop-append zero n out more = refl
decimal_loop-append (suc f) n out more = elim (Bool-cases (ltb n 10)) [
  | inl e ↦ rw e refl
  | inr e ↦ rw e (decimal_loop-append f (n / 10) ((b'0' + n % 10) ∷ out) more)
]
