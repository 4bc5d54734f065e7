-- ===== src/LoadBalancer/HealthCheck/Total.antt =====
-- When the health check panics, and when it does not.
use rms_gate.Base.{
  ℕ, ◌<◌, ◌≡◌, refl, ◌≢◌, ◌⊎◌, inl, inr, true, false, none, some, [], arith, Bool-cases,
  Option-cases, pos, ◌≤ℤ◌,
}
use rms_gate.Float64.{Floats}
use rms_gate.LoadBalancer.Backend.{Backend, milliseconds, record_latency, set_last_check_time}
use rms_gate.LoadBalancer.Backend.Metrics.{jitter}
use rms_gate.LoadBalancer.Backend.Window.{record_latency-none_iff}
use rms_gate.LoadBalancer.History.{Cache}
use rms_gate.LoadBalancer.History.Records.{IsComplete, record_sample_lem}
use rms_gate.LoadBalancer.HealthCheck.{
  HealthCheckConfig, Ping, after_failure, after_success, check_backend,
}

-- A window that is empty has a positive size.
abbrev pub HasWindow : Backend → Type 0
HasWindow b = (b.latency_window ≢ []) ⊎ (pos 1 ≤ℤ b.window_size)

module _ (fl : Floats) (cfg : HealthCheckConfig fl.Float) (ping : Ping) where
  -- A backend whose window size is not positive panics the check at its first good ping.
  check_backend-panics :
      (b : Backend) (cache : Cache fl.Float) (latency : ℕ)
      → b.disabled ≡ false
      → b.latency_window ≡ []
      → b.window_size ≤ℤ pos 0
      → ping.latency ≡ some latency
      → check_backend fl cfg ping b cache ≡ none
  unfolding check_backend set_last_check_time
  check_backend-panics b cache latency on empty size good =
      let b1 = set_last_check_time b ping.ended in
      rw (on, good) (rw ((record_latency-none_iff b1 latency).1 (empty, size)))

  -- What a check does to a backend: nothing if it is disabled, and else the branch of the ping,
  -- behind the latency sample if it is a good one.
  abbrev pub Outcome : Backend → Backend → Type 0
  Outcome b b' =
      let b1 = set_last_check_time b ping.ended in
      ((b.disabled ≡ true) × (b' ≡ b))
      ⊎ ((b.disabled ≡ false)
          × (ping.latency ≡ none)
          × (b' ≡ after_failure cfg.unhealthy_after_failures b1))
      ⊎ ((l : ℕ) × (b2 : Backend) × (b.disabled ≡ false)
          × (ping.latency ≡ some l)
          × (record_latency b1 l ≡ some b2)
          × (b' ≡ after_success cfg.healthy_after_successes b2))

  abbrev Checked : Backend → Cache fl.Float → Type 0
  Checked b cache =
      (b' : Backend) × (cache' : Cache fl.Float) × (check_backend fl cfg ping b cache
        ≡ some (b', cache'))
      × Outcome b b'
      × IsComplete fl cache'

  good_ping :
      (b : Backend) (cache : Cache fl.Float) (l : ℕ) (b2 : Backend)
      → b.disabled ≡ false
      → ping.latency ≡ some l
      → record_latency (set_last_check_time b ping.ended) l ≡ some b2
      → IsComplete fl cache
      → ping.period < 96
      → Checked b cache
  unfolding check_backend
  good_ping b cache l b2 on good kept c p =
      let (cache', old, _, e, _, c') =
        record_sample_lem fl cache b2.addr ping.period (fl.of_int (pos (milliseconds l)))
          (jitter fl b2) c p in
      (
        after_success cfg.healthy_after_successes b2,
        cache',
        rw (on, good, kept, e),
        inr (inr (l, b2, on, good, kept, refl)),
        c',
      )

  -- Otherwise it ends, for every ping within the day, and a complete cache stays so.
  pub check_backend_lem :
      (b : Backend) (cache : Cache fl.Float)
      → HasWindow b
      → IsComplete fl cache
      → ping.period < 96
      → (b' : Backend) × (cache' : Cache fl.Float) × (check_backend fl cfg ping b cache
          ≡ some (b', cache'))
        × Outcome b b'
        × IsComplete fl cache'
  unfolding check_backend set_last_check_time
  check_backend_lem b cache w c p = elim (Bool-cases b.disabled) [
    | inl off ↦ (b, cache, rw off, inl (off, refl), c)
    | inr on ↦ elim (Option-cases ping.latency) [
      | inl bad ↦ (
        after_failure cfg.unhealthy_after_failures (set_last_check_time b ping.ended),
        cache,
        simp (on, bad),
        inr (inl (on, bad, refl)),
        c,
      )
      | inr (l, good) ↦
          let b1 = set_last_check_time b ping.ended in
          elim (Option-cases (record_latency b1 l)) [
            | inl panic ↦
                let (empty, size) = (record_latency-none_iff b1 l).0 panic in
                absurd (elim w [ inl full ↦ full empty | inr large ↦ omega (arith, size, large) ])
            | inr (b2, kept) ↦ good_ping b cache l b2 on good kept c p
          ]
    ]
  ]
