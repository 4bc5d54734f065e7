-- ===== src/LoadBalancer/HealthCheck/Rounds/Walk.antt =====
-- The walk of one server's backends, where none of them stops it.
use rms_gate.Base.{
  ℕ, ◌+◌, ◌<◌, ◌≡◌, refl, ◌≢◌, inl, inr, false, some, List, [], ◌∷◌, ◌++◌, arith, Option-cases, All,
  ℤ,
}
use rms_gate.Float64.{Floats}
use rms_gate.LoadBalancer.Backend.{
  Backend, milliseconds, record_latency, slice_from_1, increase_trust, reset_trust,
  record_health_check_success, record_health_check_failure, reset_success_count, set_healthy,
  set_last_check_time,
}
use rms_gate.LoadBalancer.History.{Cache}
use rms_gate.LoadBalancer.History.Records.{IsComplete}
use rms_gate.LoadBalancer.HealthCheck.{
  HealthCheckConfig, Ping, after_failure, after_success, check_backend,
}
use rms_gate.LoadBalancer.HealthCheck.Total.{HasWindow, Outcome, check_backend_lem}
use rms_gate.LoadBalancer.HealthCheck.Rounds.{run_backend, run_backends}

after_failure-window :
    (n : ℤ) (b : Backend)
    → ((after_failure n b).latency_window ≡ b.latency_window)
      × ((after_failure n b).window_size ≡ b.window_size)
unfolding after_failure record_health_check_failure set_healthy
after_failure-window n b = ground arith

after_success-window :
    (n : ℤ) (b : Backend)
    → ((after_success n b).latency_window ≡ b.latency_window)
      × ((after_success n b).window_size ≡ b.window_size)
unfolding after_success record_health_check_success set_healthy reset_trust reset_success_count
    increase_trust
after_success-window n b = ground arith

append_one : {A : Type 0} (xs : List A) (x : A) → (xs ++ (x ∷ [])) ≢ []
append_one [] x h = cc
append_one (y ∷ xs) x h = cc

record_latency-full :
    (b b' : Backend) (l : ℕ) → record_latency b l ≡ some b' → b'.latency_window ≢ []
unfolding record_latency
record_latency-full b b' l h =
    let m = milliseconds l in
    elim (Option-cases (slice_from_1 b.latency_window)) [
      | inl e ↦ ground (arith, e, append_one b.latency_window m)
      | inr (w, e) ↦ ground (arith, e, append_one b.latency_window m, append_one w m)
    ]

Outcome-HasWindow :
    (fl : Floats) (cfg : HealthCheckConfig fl.Float) (ping : Ping) (b b' : Backend)
    → Outcome fl cfg ping b b'
    → HasWindow b
    → HasWindow b'
unfolding set_last_check_time
Outcome-HasWindow fl cfg ping b b' (inl (off, e)) w = rw e w
Outcome-HasWindow fl cfg ping b b' (inr (inl (on, bad, e))) w =
    let k = after_failure-window cfg.unhealthy_after_failures (set_last_check_time b ping.ended) in
    rw e (elim w [ inl full ↦ inl (rw k.0 full) | inr large ↦ inr (rw k.1 large) ])
Outcome-HasWindow fl cfg ping b b' (inr (inr (l, b2, on, good, kept, e))) w =
    let k = after_success-window cfg.healthy_after_successes b2 in
    rw e (inl (rw k.0 (record_latency-full (set_last_check_time b ping.ended) b2 l kept)))

module _ (fl : Floats) (cfg : HealthCheckConfig fl.Float) where
  -- Backend by backend, what the pings do.
  pub data Walked (pings : ℕ → Ping) : ℕ → List Backend → List Backend → Type 0 where
    ended : {i : ℕ} → Walked pings i [] []
    went :
        (i : ℕ) (b b' : Backend) (bs bs' : List Backend)
        → Outcome fl cfg (pings i) b b'
        → Walked pings (i + 1) bs bs'
        → Walked pings i (b ∷ bs) (b' ∷ bs')

  run_backend-check :
      (ping : Ping) (b b' : Backend) (cache cache' : Cache fl.Float)
      → check_backend fl cfg ping b cache ≡ some (b', cache')
      → run_backend fl cfg ping b cache ≡ record { state = (b', cache'); panicked = false }
  unfolding run_backend check_backend
  run_backend-check ping b b' cache cache' e = ground arith

  pub run_backends-Walked :
      (pings : ℕ → Ping) (i : ℕ) (bs : List Backend) (cache : Cache fl.Float)
      → ((j : ℕ) → (pings j).period < 96)
      → All HasWindow bs
      → IsComplete fl cache
      → (bs' : List Backend) × (cache' : Cache fl.Float) × (run_backends fl cfg pings i bs cache
          ≡ record { state = (bs', cache'); panicked = false })
        × Walked pings i bs bs'
        × All HasWindow bs'
        × IsComplete fl cache'
  unfolding run_backends
  run_backends-Walked pings i [] cache day w c = ([], cache, refl, ended, w, c)
  run_backends-Walked pings i (b ∷ bs) cache day (w, ws) c =
      let (b', cache1, e, o, c1) = check_backend_lem fl cfg (pings i) b cache w c (day i) in
      let (bs', cache2, e2, k, ws', c2) = run_backends-Walked pings (i + 1) bs cache1 day ws c1 in
      let e1 = run_backend-check (pings i) b b' cache cache1 e in
      (
        b' ∷ bs',
        cache2,
        rw (e1, e2) refl,
        went i b b' bs bs' o k,
        (Outcome-HasWindow fl cfg (pings i) b b' o w, ws'),
        c2,
      )
