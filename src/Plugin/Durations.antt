-- ===== src/Plugin/Durations.antt =====
-- main.go, `parseTimeString` and `formatDuration`, with what they use of package fmt: `Sscanf` with
-- "%d" and `Sprintf`. An `int` has 64 bits; `none` is an error.
pub mod Digits
pub mod RoundTrip
use rms_gate.Base.{
  ℕ, zero, suc, ◌+◌, ◌-◌, ◌*◌, ◌/◌, ◌%◌, ◌^◌, Bool, true, false, not, ◌&&◌, Option, none, some,
  List, [], ◌∷◌, ltb, leb, ◌==◌, if◌then◌else◌, ◌>>=◌, ℤ, pos, negsuc, pos_part, minus, mul_64,
  leb_ℤ, codes, is_space,
}

-- The white space before a number; a line break there is an error.
unfoldable pub skip_space : List ℕ → Option (List ℕ)
skip_space [] = some []
skip_space (c ∷ s) =
    let rest = skip_space s in if c == 0xa then none else if is_space c then rest else some (c ∷ s)

abbrev pub is_digit : ℕ → Bool
is_digit c = leb b'0' c && leb c b'9'

-- The digits that a text starts with, behind the value `n`; what follows is not looked at.
unfoldable pub digits_value : ℕ → List ℕ → ℕ
digits_value n [] = n
digits_value n (c ∷ s) =
    let more = digits_value (n * 10 + (c - b'0')) s in if is_digit c then more else n

-- At least one digit, and a number that 64 bits hold.
unfoldable pub scan_digits : Bool → List ℕ → Option ℤ
unfolding digits_value
scan_digits negative [] = none
scan_digits negative (c ∷ s) =
    let n = digits_value 0 (c ∷ s) in
    if not (is_digit c)
    then none
    else if ltb (if negative then 2 ^ 63 else 2 ^ 63 - 1) n
    then none
    else some (if negative then minus n else pos n)

-- `fmt.Sscanf(s, "%d", &num)`
unfoldable pub scan_int : List ℕ → Option ℤ
unfolding skip_space scan_digits
scan_int s = elim (skip_space s) [
  | none ↦ none
  | some [] ↦ none
  | some (c ∷ t) ↦
      if c == b'-'
      then scan_digits true t
      else if c == b'+'
      then scan_digits false t
      else scan_digits false (c ∷ t)
]

-- `s[:len(s)-1]` and `s[len(s)-1]`
unfoldable pub split_last : List ℕ → Option (List ℕ × ℕ)
split_last [] = none
split_last (c ∷ []) = some ([], c)
split_last (c ∷ d ∷ s) = elim (split_last (d ∷ s)) [
  | none ↦ none
  | some (front, last) ↦ some (c ∷ front, last)
]

unfoldable pub parse_time_string : List ℕ → Option ℤ
unfolding split_last scan_int mul_64
parse_time_string s = elim (split_last s) [
  | none ↦ none
  | some (front, last) ↦
      let scaled = λ (multiplier : ℕ). scan_int front >>= λ num. some (mul_64 num multiplier) in
      if last == b's'
      then scaled 1
      else if last == b'm'
      then scaled 60
      else if last == b'h'
      then scaled 3600
      else (scan_int s >>= λ num. some (mul_64 num 1))
]

-- "%d" of a number that is not negative, before `out`; each round takes a digit, and 20 are enough
-- for 64 bits.
unfoldable pub decimal_loop : ℕ → ℕ → List ℕ → List ℕ
decimal_loop zero n out = out
decimal_loop (suc fuel) n out =
    let more = decimal_loop fuel (n / 10) ((b'0' + n % 10) ∷ out) in
    if ltb n 10 then (b'0' + n) ∷ out else more

unfoldable pub decimal : ℤ → List ℕ → List ℕ
unfolding decimal_loop
decimal (pos n) out = decimal_loop 20 n out
decimal (negsuc n) out = b'-' ∷ decimal_loop 20 (suc n) out

-- `seconds / k`, for `seconds` that is not negative.
abbrev pub over : ℤ → ℕ → ℤ
over seconds k = pos (pos_part seconds / k)

-- `seconds >= k && seconds%k == 0`
unfoldable pub divides : ℕ → ℤ → Bool
divides k seconds = leb_ℤ (pos k) seconds && (pos_part seconds % k == 0)

unfoldable pub format_duration : ℤ → List ℕ
unfolding decimal divides
format_duration seconds =
    if divides 3600 seconds
    then decimal (over seconds 3600) (codes " hour(s)")
    else if divides 60 seconds
    then decimal (over seconds 60) (codes " minute(s)")
    else decimal seconds (codes " second(s)")
