-- ===== src/Minecraft/VarInt/RoundTrip.antt =====
-- Reading back what was written, and what is never written.
use rms_gate.Base.{
  ℕ, zero, suc, ◌+◌, ◌*◌, ◌/◌, ◌%◌, ◌^◌, ◌≤◌, ◌<◌, ◌≡◌, refl, ap, ◌∙◌, inl, inr, none, some, List,
  [], ◌∷◌, ◌++◌, arith, ltb, if◌then◌else◌, Bool-cases, length, two_31, two_32,
}
use Prim.Native.Nat.{bit_and, bit_or}
use native.Mathlib.Nat.{mod-eq_of_lt, pow-suc}
use native.Mathlib.Numerals.{towards_suc}
use rms_gate.Base.Bits.{bit_and_127, bit_and_128, bit_or_128, bit_or-disjoint}
use rms_gate.Minecraft.VarInt.{shr7_32, write_var_int, ok, read_loop, read_var_int}

-- One round on a last byte, and on a byte with the top bit set over the group `g`.
read_last :
    (g r s : ℕ) (rest : List ℕ)
    → g < 128
    → r < 2 ^ s
    → g * 2 ^ s < two_32
    → read_loop (g ∷ rest) r s ≡ ok (r + g * 2 ^ s, rest)
unfolding read_loop
read_last g r s rest hg hr fits = ground (
  arith,
  bit_and_127 g,
  bit_and_128 g,
  bit_or-disjoint s r g,
  mod-eq_of_lt {n = g * 2 ^ s} {m = two_32},
)

read_more :
    (g r s : ℕ) (rest : List ℕ)
    → g < 128
    → r < 2 ^ s
    → g * 2 ^ s < two_32
    → s + 7 < 32
    → read_loop ((g + 128) ∷ rest) r s ≡ read_loop rest (r + g * 2 ^ s) (s + 7)
unfolding read_loop
read_more g r s rest hg hr fits hs = ground (
  arith,
  bit_and_127 (g + 128),
  bit_and_128 (g + 128),
  bit_or-disjoint s r g,
  mod-eq_of_lt {n = g * 2 ^ s} {m = two_32},
)

next_power : (s : ℕ) → 2 ^ (s + 7) ≡ 2 ^ s * 128
next_power s = simp towards_suc (omega arith)

-- What one round of the writer does to a value that is not negative.
write_last : (k v : ℕ) → v < 128 → write_var_int (suc k) v ≡ some (v ∷ [])
unfolding write_var_int
write_last k v h = ground (arith, bit_and_127 v)

write_more :
    (k v : ℕ) (bs : List ℕ)
    → 128 ≤ v
    → v < two_31
    → write_var_int k (v / 128) ≡ some bs
    → write_var_int (suc k) v ≡ some ((v % 128 + 128) ∷ bs)
unfolding write_var_int
write_more k v bs h b e =
    let e' : shr7_32 v ≡ v / 128 = ground arith in
    let e2 : write_var_int k (shr7_32 v) ≡ some bs = rw e' e in
    ground (arith, e', e2, bit_and_127 v, bit_or_128 (v % 128))

div_lt : (k v : ℕ) → v < 128 ^ suc (suc k) → v / 128 < 128 ^ suc k
div_lt k v h = omega (arith, pow-suc 128 (suc k))

joined : (p g q : ℕ) → g * p + q * (p * 128) ≡ (q * 128 + g) * p
joined p g q = omega arith

-- A number at bit `s` is its low seven bits there and the others seven bits further.
low_and_high : (s w : ℕ) → w % 128 * 2 ^ s + w / 128 * 2 ^ (s + 7) ≡ w * 2 ^ s
low_and_high s w =
    let whole : w / 128 * 128 + w % 128 ≡ w = omega arith in
    rw (next_power s) (joined (2 ^ s) (w % 128) (w / 128) ∙ ap (λ x. x * 2 ^ s) whole)

group_bound : (r g p : ℕ) → r < p → g < 128 → r + g * p < 128 * p
group_bound r g p hr hg = grind arith

-- The groups of seven bits of `v`, lowest first, the top bit set on all but the last of them.
unfoldable pub groups : ℕ → ℕ → List ℕ
groups zero v = v ∷ []
groups (suc k) v =
    let rest = groups k (v / 128) in if ltb v 128 then v ∷ [] else (v % 128 + 128) ∷ rest

write-groups :
    (k v : ℕ) → v < 128 ^ suc k → v < two_31 → write_var_int (suc k) v ≡ some (groups k v)
unfolding groups
write-groups zero v h b = write_last zero v h
write-groups (suc k) v h b = elim (Bool-cases (ltb v 128)) [
  | inl e ↦ rw e (write_last (suc k) v (ground arith))
  | inr e ↦ rw e (
      write_more (suc k) v (groups k (v / 128)) (ground arith) b
        (write-groups k (v / 128) (div_lt k v h) (omega arith)))
]

length-groups : (k v : ℕ) → (1 ≤ length (groups k v)) × (length (groups k v) ≤ k + 1)
unfolding groups
length-groups zero v = omega arith
length-groups (suc k) v = ground (arith, length-groups k (v / 128))

-- `w` is what is still to be read, and it counts from bit `s` on.
read-groups :
    (k w r s : ℕ) (rest : List ℕ)
    → w < 128 ^ suc k
    → s + 7 * k < 32
    → r < 2 ^ s
    → w * 2 ^ s < two_32
    → read_loop (groups k w ++ rest) r s ≡ ok (r + w * 2 ^ s, rest)
unfolding groups
read-groups zero w r s rest h f hr b = read_last w r s rest h hr b
read-groups (suc k) w r s rest h f hr b = elim (Bool-cases (ltb w 128)) [
  | inl e ↦ rw e (read_last w r s rest (ground arith) hr b)
  | inr e ↦
      let split : w % 128 * 2 ^ s + w / 128 * 2 ^ (s + 7) ≡ w * 2 ^ s = low_and_high s w in
      rw e (
        read_more (w % 128) r s (groups k (w / 128) ++ rest) (omega arith) hr (omega arith)
          (omega arith)
        ∙ read-groups k (w / 128) (r + w % 128 * 2 ^ s) (s + 7) rest (div_lt k w h) (omega arith)
            (omega (arith, next_power s, group_bound r (w % 128) (2 ^ s) hr (omega arith)))
            (omega (arith, split))
        ∙ ap (λ (t : ℕ). ok (t, rest)) (omega (arith, split)))
]

-- Every int32 that is not negative is written in at most five bytes and read back, and what
-- follows it is left.
pub read-write :
    (v : ℕ) (rest : List ℕ)
    → v < two_31
    → (bs : List ℕ) × (write_var_int 5 v ≡ some bs)
      × (read_var_int (bs ++ rest) ≡ ok (v, rest))
      × (1 ≤ length bs)
      × (length bs ≤ 5)
unfolding read_var_int
read-write v rest h =
    let (lo, hi) = length-groups 4 v in
    (
      groups 4 v,
      write-groups 4 v (omega arith) h,
      read-groups 4 v 0 0 rest (omega arith) (omega arith) (omega arith) (omega arith)
          ∙ ap (λ (t : ℕ). ok (t, rest)) (omega arith),
      lo,
      hi,
    )

-- A negative int32 is never written to its end: the shift keeps the sign, so the value never
-- becomes 0, whatever the fuel.
write_negative : (fuel v : ℕ) → two_31 ≤ v → v < two_32 → write_var_int fuel v ≡ none
unfolding write_var_int
write_negative zero v h b = refl
write_negative (suc fuel) v h b =
    ground (arith, write_negative fuel (shr7_32 v) (ground arith) (ground arith))

read_loop_bounds :
    (src : List ℕ) (r s j v : ℕ) (rest : List ℕ)
    → s ≡ 7 * j
    → j ≤ 4
    → read_loop src r s ≡ ok (v, rest)
    → (length rest < length src) × (length src + j ≤ length rest + 5)
unfolding read_loop
read_loop_bounds [] r s j v rest e h q = cc
read_loop_bounds (b ∷ bs) r s j v rest e h q =
    let r' = bit_or r (bit_and b 0x7f * 2 ^ s % two_32) in
    ground (arith, read_loop_bounds bs r' (s + 7) (j + 1) v rest)

-- A successful read takes one to five bytes.
read_bounds :
    (src : List ℕ) (v : ℕ) (rest : List ℕ)
    → read_var_int src ≡ ok (v, rest)
    → (length rest < length src) × (length src ≤ length rest + 5)
unfolding read_var_int
read_bounds src v rest q = ground (arith, read_loop_bounds src 0 0 0 v rest)
