-- ===== src/LoadBalancer/History/Samples.antt =====
-- What a sample does to the statistics.
use rms_gate.Base.{
  ℕ, ◌<◌, String, ◌≡◌, ◌&&◌, some, arith, ◌==◌, if◌then◌else◌, ℤ, pos, ◌+ℤ◌, ◌==ℤ◌, str_eq,
}
use rms_gate.Float64.{Floats}
use rms_gate.LoadBalancer.History.{PeriodStats, Cache, record_sample, update_stats}
use rms_gate.LoadBalancer.History.Records.{IsComplete, slot, record_sample_lem}

module _ (fl : Floats) where
  open fl use {Float, fadd, fmul, decimal}

  -- The first value of a period as it is, and then the average with the weight 0.1 for a new one.
  abbrev pub averaged : ℤ → Float → Float → Float
  averaged samples old new =
      if samples ==ℤ pos 0 then new else fadd (fmul (decimal 1 1) new) (fmul (decimal 9 1) old)

  pub record Counts (old new : PeriodStats Float) (latency jitter : Float) : Type 0 where
    pub latency_averaged : new.avg_latency ≡ averaged old.samples old.avg_latency latency
    pub jitter_averaged : new.avg_jitter ≡ averaged old.samples old.avg_jitter jitter
    pub one_more : new.samples ≡ old.samples +ℤ pos 1
    pub same_index : new.period_index ≡ old.period_index
    pub same_label : new.period_label ≡ old.period_label

  update_stats-Counts :
      (old : PeriodStats Float) (latency jitter : Float)
      → Counts old (update_stats fl old latency jitter) latency jitter
  unfolding update_stats
  update_stats-Counts old latency jitter = record {
    latency_averaged = ground arith;
    jitter_averaged = ground arith;
    one_more = ground arith;
    same_index = ground arith;
    same_label = ground arith;
  }

  -- With a complete cache and a period of the day, Record does not panic: in the slot of the backend
  -- and period it counts one sample more, takes the latency and the jitter as they are where there
  -- was none and else averages them with weight 0.1, and keeps index and label; it changes no
  -- other slot, and keeps the cache complete.
  pub record_sample-Counts :
      (cache : Cache Float) (addr : String) (period : ℕ) (latency jitter : Float)
      → IsComplete fl cache
      → period < 96
      → (cache' : Cache Float) × (old : PeriodStats Float) × (new : PeriodStats Float) × (slot fl
            cache addr period
          ≡ some old)
        × (record_sample fl cache addr period latency jitter ≡ some (cache', new))
        × Counts old new latency jitter
        × ((other : String) (i : ℕ)
            → slot fl cache' other i
              ≡ (if str_eq addr other && (period == i) then some new else slot fl cache other i))
        × IsComplete fl cache'
  record_sample-Counts cache addr period latency jitter c b =
      let (cache', old, at, e, slots, c') =
        record_sample_lem fl cache addr period latency jitter c b in
      (
        cache',
        old,
        update_stats fl old latency jitter,
        at,
        e,
        update_stats-Counts old latency jitter,
        slots,
        c',
      )
