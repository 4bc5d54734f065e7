-- ===== src/Float64/Fixed.antt =====
-- Numbers counted in thousandths: an arithmetic that meets the laws, to run the code on.
use rms_gate.Base.{
  ℕ, ◌+◌, ◌*◌, ◌/◌, ◌^◌, ◌≡◌, arith, false, ℤ, pos, negsuc, pos_part, neg_part, sub_ℕ, ◌+ℤ◌, ◌-ℤ◌,
  ◌≤ℤ◌, ltb_ℤ, leb_ℤ, ◌&&◌,
}
use rms_gate.Float64.{Floats, FloatLaws}

-- The integer with parts `p / k` and `q / k`, one of which is 0.
abbrev scale_down : ℕ → ℤ → ℤ
scale_down k a = sub_ℕ (pos_part a / k) (neg_part a / k)

abbrev thousands : ℤ → ℤ
thousands a = sub_ℕ (pos_part a * 1000) (neg_part a * 1000)

abbrev times : ℤ → ℤ → ℤ
times a b =
    sub_ℕ (pos_part a * pos_part b + neg_part a * neg_part b)
      (pos_part a * neg_part b + neg_part a * pos_part b)

-- Division truncates; by 0 it gives 0.
abbrev over : ℤ → ℤ → ℤ
over a (pos n) = scale_down n (thousands a)
over a (negsuc n) = sub_ℕ (neg_part a * 1000 / (n + 1)) (pos_part a * 1000 / (n + 1))

-- The laws say nothing of `sqrt`.
abbrev pub fixed : Floats
fixed = record {
  Float = ℤ;
  of_int = thousands;
  decimal = λ m k. pos (m * 1000 / 10 ^ k);
  fadd = λ a b. a +ℤ b;
  fsub = λ a b. a -ℤ b;
  fmul = λ a b. scale_down 1000 (times a b);
  fdiv = over;
  sqrt = λ a. a;
  flt = ltb_ℤ;
  fle = leb_ℤ;
  feq = λ a b. leb_ℤ a b && leb_ℤ b a;
  to_int = scale_down 1000;
}

thousands_add : (a b : ℤ) → thousands a +ℤ thousands b ≡ thousands (a +ℤ b)
unfolding ◌+ℤ◌
thousands_add (pos a) (pos b) = ground arith
thousands_add (pos a) (negsuc b) = ground arith
thousands_add (negsuc a) (pos b) = ground arith
thousands_add (negsuc a) (negsuc b) = ground arith

thousands_sub : (a b : ℤ) → thousands a -ℤ thousands b ≡ thousands (a -ℤ b)
unfolding ◌-ℤ◌
thousands_sub (pos a) (pos b) = ground arith
thousands_sub (pos a) (negsuc b) = ground arith
thousands_sub (negsuc a) (pos b) = ground arith
thousands_sub (negsuc a) (negsuc b) = ground arith

scale-thousands : (a : ℤ) → scale_down 1000 (thousands a) ≡ a
scale-thousands a = ground arith

scale_range :
    (x : ℤ)
    → ltb_ℤ x (pos 0) ≡ false
    → ltb_ℤ (pos 100_000) x ≡ false
    → (pos 0 ≤ℤ scale_down 1000 x) × (scale_down 1000 x ≤ℤ pos 100)
scale_range x h k = ground arith

pub fixed_laws : FloatLaws fixed
fixed_laws = record {
  add_exact = λ a b _ _. thousands_add a b;
  sub_exact = λ a b _ _. thousands_sub a b;
  to_int_exact = λ a _. scale-thousands a;
  to_int_range = λ x _ h k. scale_range x h k;
}
