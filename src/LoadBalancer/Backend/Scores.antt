-- ===== src/LoadBalancer/Backend/Scores.antt =====
-- The range of the relative health score.
use rms_gate.Base.{◌≡◌, true, arith, pos, ◌≤ℤ◌}
use rms_gate.Float64.{Floats, FloatLaws}
use rms_gate.LoadBalancer.Backend.{Backend}
use rms_gate.LoadBalancer.Backend.Metrics.{raw_score, relative_health_score}

module _ (fl : Floats) (laws : FloatLaws fl) where
  open fl use {Float, of_int, flt, feq, to_int}

  -- Whatever the latencies, jitter, trend and trust, the score lies between 0 and 100, as long as
  -- the sum it is made from is a number.
  relative_health_score_range :
      (b : Backend) (min_latency min_jitter : Float)
      → feq (raw_score fl b min_latency min_jitter) (raw_score fl b min_latency min_jitter) ≡ true
      → (pos 0 ≤ℤ relative_health_score fl b min_latency min_jitter)
        × (relative_health_score fl b min_latency min_jitter ≤ℤ pos 100)
  unfolding relative_health_score
  relative_health_score_range b min_latency min_jitter number = ground (
    arith,
    laws.to_int_exact (pos 0) (omega arith),
    laws.to_int_exact (pos 100) (omega arith),
    laws.to_int_range (raw_score fl b min_latency min_jitter) number,
  )
