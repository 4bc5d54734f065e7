-- ===== src/Plugin/Durations/RoundTrip.antt =====
-- Durations that are printed and typed in again.
use rms_gate.Base.{
  ℕ, suc, ◌*◌, ◌/◌, ◌%◌, ◌^◌, ◌≤◌, ◌<◌, ◌≡◌, refl, sym, ap, ◌∙◌, ◌≢◌, ◌⊎◌, inl, inr, true, false,
  some, List, [], ◌∷◌, arith, Bool-cases, pos, mul_64, codes,
}
use native.Mathlib.Nat.{div-add-mod}
use rms_gate.Plugin.Durations.{
  scan_int, split_last, mul_64, parse_time_string, decimal_loop, decimal, divides, format_duration,
}
use rms_gate.Plugin.Durations.Digits.{scan_int-decimal, split_last-end, decimal_loop-append}

-- The units that `parseTimeString` knows, in seconds, with the words that `formatDuration` writes.
pub data TimeUnit : ℕ → ℕ → List ℕ → Type 0 where
  hours : TimeUnit b'h' 3600 (codes " hour(s)")
  minutes : TimeUnit b'm' 60 (codes " minute(s)")
  seconds : TimeUnit b's' 1 (codes " second(s)")

mul_64-small : (n k : ℕ) → n * k < 2 ^ 63 → mul_64 (pos n) k ≡ pos (n * k)
unfolding mul_64
mul_64-small n k h = ground arith

parse-split :
    {c k : ℕ} {word : List ℕ}
    → TimeUnit c k word
    → (s front : List ℕ) (n : ℕ) → split_last s ≡ some (front, c)
    → scan_int front ≡ some (pos n)
    → n * k < 2 ^ 63
    → parse_time_string s ≡ some (pos (n * k))
unfolding parse_time_string
parse-split hours s front n e q h =
    rw (e, parse_time_string) (rw (q, parse_time_string) (ap some (mul_64-small n 3600 h)))
parse-split minutes s front n e q h =
    rw (e, parse_time_string) (rw (q, parse_time_string) (ap some (mul_64-small n 60 h)))
parse-split seconds s front n e q h =
    rw (e, parse_time_string) (rw (q, parse_time_string) (ap some (mul_64-small n 1 h)))

unit-pos : {c k : ℕ} {word : List ℕ} → TimeUnit c k word → 1 ≤ k
unit-pos hours = omega arith
unit-pos minutes = omega arith
unit-pos seconds = omega arith

pub parse-unit :
    {c k : ℕ} {word : List ℕ}
    → TimeUnit c k word
    → (n : ℕ) → n * k < 2 ^ 63
    → parse_time_string (decimal_loop 20 n (c ∷ [])) ≡ some (pos (n * k))
parse-unit {c} {k} u n h =
    let small : n < 2 ^ 63 = grind (arith, unit-pos u) in
    let split =
      ap split_last (sym (decimal_loop-append 20 n [] (c ∷ [])))
      ∙ split_last-end c (decimal_loop 20 n []) in
    parse-split u _ (decimal_loop 20 n []) n split (scan_int-decimal n [] small tt) h

divides-exact : (k s : ℕ) → divides (suc k) (pos s) ≡ true → s / suc k * suc k ≡ s
unfolding divides
divides-exact k s e =
    let rest : s % suc k ≡ 0 = ground (arith, e) in omega (arith, div-add-mod s (suc k), rest)

parse-multiple :
    {c k : ℕ} {word : List ℕ}
    → TimeUnit c k word
    → (n s : ℕ) → n * k ≡ s
    → s < 2 ^ 63
    → parse_time_string (decimal (pos n) (c ∷ [])) ≡ some (pos s)
unfolding decimal
parse-multiple u n s e h = parse-unit u n (rw e h) ∙ ap (λ x. some (pos x)) e

-- No unit above `k` that is at most `s` divides it.
abbrev Largest : ℕ → ℕ → ℕ → Type 0
Largest s k k' = (k' ≤ k) ⊎ (s < k') ⊎ (s % k' ≢ 0)

undivided : (k s : ℕ) → divides (suc k) (pos s) ≡ false → (s < suc k) ⊎ (s % suc k ≢ 0)
unfolding divides
undivided k s e = ground arith

hour-Largest : {c' k' : ℕ} {word' : List ℕ} (s : ℕ) → TimeUnit c' k' word' → Largest s 3600 k'
hour-Largest s hours = inl (omega arith)
hour-Largest s minutes = inl (omega arith)
hour-Largest s seconds = inl (omega arith)

minute-Largest :
    {c' k' : ℕ} {word' : List ℕ} (s : ℕ)
    → TimeUnit c' k' word'
    → divides 3600 (pos s) ≡ false
    → Largest s 60 k'
minute-Largest s hours e = inr (undivided 3599 s e)
minute-Largest s minutes e = inl (omega arith)
minute-Largest s seconds e = inl (omega arith)

second-Largest :
    {c' k' : ℕ} {word' : List ℕ} (s : ℕ)
    → TimeUnit c' k' word'
    → divides 3600 (pos s) ≡ false
    → divides 60 (pos s) ≡ false
    → Largest s 1 k'
second-Largest s hours e d = inr (undivided 3599 s e)
second-Largest s minutes e d = inr (undivided 59 s d)
second-Largest s seconds e d = inl (omega arith)

-- A duration that int holds and that is not negative is printed as a number and the word of a unit,
-- whose product it is; typed in with the letter of that unit, the number gives it back; and no unit
-- that is larger than this one and at most the duration divides it.
pub format-parse :
    {c' k' : ℕ} {word' : List ℕ} (s : ℕ)
    → s < 2 ^ 63
    → TimeUnit c' k' word'
    → (n c k : ℕ) × (word : List ℕ) × TimeUnit c k word
      × (n * k ≡ s)
      × (format_duration (pos s) ≡ decimal (pos n) word)
      × (parse_time_string (decimal (pos n) (c ∷ [])) ≡ some (pos s))
      × ((k' ≤ k) ⊎ (s < k') ⊎ (s % k' ≢ 0))
unfolding format_duration
format-parse s h u = elim (Bool-cases (divides 3600 (pos s))) [
  | inl e ↦
      let exact = divides-exact 3599 s e in
      (
        s / 3600,
        _,
        _,
        _,
        hours,
        exact,
        rw (e, format_duration) refl,
        parse-multiple hours (s / 3600) s exact h,
        hour-Largest s u,
      )
  | inr e ↦ elim (Bool-cases (divides 60 (pos s))) [
    | inl d ↦
        let exact = divides-exact 59 s d in
        (
          s / 60,
          _,
          _,
          _,
          minutes,
          exact,
          rw (e, d, format_duration) refl,
          parse-multiple minutes (s / 60) s exact h,
          minute-Largest s u e,
        )
    | inr d ↦ (
      s,
      _,
      _,
      _,
      seconds,
      omega arith,
      rw (e, d, format_duration) refl,
      parse-multiple seconds s s (omega arith) h,
      second-Largest s u e d,
    )
  ]
]
