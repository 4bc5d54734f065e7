-- ===== src/LoadBalancer/History/Adjustment.antt =====
-- The size of the adjustment by history.
use rms_gate.Base.{
  ℕ, ◌≤◌, String, ◌≡◌, ap, ◌∙◌, inl, inr, ◌&&◌, none, some, arith, if◌then◌else◌, Option-cases, ℤ,
  pos, negsuc, pos_part, neg_part, ◌+ℤ◌, ◌-ℤ◌, ◌≤ℤ◌, ltb_ℤ,
}
use rms_gate.Float64.{Floats, FloatLaws}
use rms_gate.LoadBalancer.History.{
  compare_latency, compare_jitter, PeriodStats, Cache, get_period_stats, latency_points,
  jitter_points, score_against, historical_score,
}

add_zero_ℤ : (a : ℤ) → a +ℤ pos 0 ≡ a
unfolding ◌+ℤ◌
add_zero_ℤ a = ground arith

-- The adjustment as whole numbers: what each comparison is worth.
module _ (fl : Floats) where
  open fl use {Float, of_int, decimal, fdiv, flt}

  latency_value : Float → ℤ
  latency_value ratio =
      if flt ratio (decimal 7 1)
      then pos 8
      else if flt ratio (decimal 85 2)
      then pos 4
      else if flt (decimal 15 1) ratio
      then negsuc 7
      else if flt (decimal 12 1) ratio
      then negsuc 3
      else pos 0

  jitter_value : Float → ℤ
  jitter_value ratio =
      if flt ratio (decimal 7 1)
      then pos 4
      else if flt (decimal 15 1) ratio
      then negsuc 3
      else pos 0

  -- A comparison is made where both numbers are positive.
  compared : (Float → ℤ) → Float → Float → ℤ
  compared value current average =
      if flt (of_int (pos 0)) average && flt (of_int (pos 0)) current
      then value (fdiv current average)
      else pos 0

  pub adjustment : PeriodStats Float → Float → Float → ℤ
  adjustment stats latency jitter =
      compared latency_value latency stats.avg_latency
      +ℤ compared jitter_value jitter stats.avg_jitter

abbrev AtMost : ℕ → ℤ → Type 0
AtMost n a = (pos_part a ≤ n) × (neg_part a ≤ n)

module _ (fl : Floats) (laws : FloatLaws fl) where
  open fl use {Float, of_int, fdiv, flt, to_int}

  latency_points-value :
      (ratio : Float) → latency_points fl (of_int (pos 0)) ratio ≡ of_int (latency_value fl ratio)
  unfolding latency_points latency_value ◌+ℤ◌ ◌-ℤ◌
  latency_points-value ratio = ground (
    arith,
    laws.add_exact (pos 0) (pos 8) (omega arith) (omega arith),
    laws.add_exact (pos 0) (pos 4) (omega arith) (omega arith),
    laws.sub_exact (pos 0) (pos 8) (omega arith) (omega arith),
    laws.sub_exact (pos 0) (pos 4) (omega arith) (omega arith),
  )

  jitter_points-value :
      (a : ℤ) (ratio : Float)
      → AtMost 8 a
      → jitter_points fl (of_int a) ratio ≡ of_int (a +ℤ jitter_value fl ratio)
  unfolding jitter_points jitter_value ◌+ℤ◌ ◌-ℤ◌
  jitter_points-value a ratio h = ground (
    arith,
    laws.add_exact a (pos 4) (omega arith) (omega arith),
    laws.sub_exact a (pos 4) (omega arith) (omega arith),
  )

  latency_value_bound : (ratio : Float) → AtMost 8 (latency_value fl ratio)
  unfolding latency_value
  latency_value_bound ratio = ground arith

  jitter_value_bound : (ratio : Float) → AtMost 4 (jitter_value fl ratio)
  unfolding jitter_value
  jitter_value_bound ratio = ground arith

  pub adjustment_bound :
      (stats : PeriodStats Float) (latency jitter : Float)
      → AtMost 12 (adjustment fl stats latency jitter)
  unfolding adjustment ◌+ℤ◌ compared
  adjustment_bound stats latency jitter = ground (
    arith,
    latency_value_bound (fdiv latency stats.avg_latency),
    jitter_value_bound (fdiv jitter stats.avg_jitter),
  )

  compare_latency-value :
      (stats : PeriodStats Float) (latency : Float)
      → compare_latency fl stats latency
        ≡ of_int (compared fl (latency_value fl) latency stats.avg_latency)
  unfolding compare_latency compared
  compare_latency-value stats latency =
      ground (arith, latency_points-value (fdiv latency stats.avg_latency))

  compare_jitter-value :
      (stats : PeriodStats Float) (a : ℤ) (jitter : Float)
      → AtMost 8 a
      → compare_jitter fl stats (of_int a) jitter
        ≡ of_int (a +ℤ compared fl (jitter_value fl) jitter stats.avg_jitter)
  unfolding compare_jitter compared
  compare_jitter-value stats a jitter h =
      ground (arith, jitter_points-value a (fdiv jitter stats.avg_jitter) h, add_zero_ℤ a)

  compared_bound :
      (stats : PeriodStats Float) (latency : Float)
      → AtMost 8 (compared fl (latency_value fl) latency stats.avg_latency)
  unfolding compared
  compared_bound stats latency =
      ground (arith, latency_value_bound (fdiv latency stats.avg_latency))

  score_against-adjustment :
      (stats : PeriodStats Float) (latency jitter : Float)
      → score_against fl stats latency jitter ≡ adjustment fl stats latency jitter
  unfolding score_against adjustment
  score_against-adjustment stats latency jitter =
      let a = compared fl (latency_value fl) latency stats.avg_latency in
      let small = adjustment_bound stats latency jitter in
      ap to_int (
        ap (λ z. compare_jitter fl stats z jitter) (compare_latency-value stats latency)
        ∙ compare_jitter-value stats a jitter (compared_bound stats latency))
      ∙ laws.to_int_exact (adjustment fl stats latency jitter) (omega (arith, small))

  -- With 20 samples in the current period the score is the adjustment, the sum of what the two
  -- comparisons are worth, and it lies between -12 and 12; with fewer, or none, it is 0.
  pub historical_score_lem :
      (cache : Cache Float) (addr : String) (period : ℕ) (latency jitter : Float)
      → let score = historical_score fl cache addr period latency jitter in
        (score ≡ elim (get_period_stats fl cache addr (pos period)) [
          | none ↦ pos 0
          | some stats ↦
              if ltb_ℤ stats.samples (pos 20) then pos 0 else adjustment fl stats latency jitter
        ])
        × (negsuc 11 ≤ℤ score)
        × (score ≤ℤ pos 12)
  unfolding historical_score
  historical_score_lem cache addr period latency jitter =
      elim (Option-cases (get_period_stats fl cache addr (pos period))) [
        | inl e ↦ ground (arith, e)
        | inr (stats, e) ↦ ground (
          arith,
          e,
          score_against-adjustment stats latency jitter,
          adjustment_bound stats latency jitter,
        )
      ]
