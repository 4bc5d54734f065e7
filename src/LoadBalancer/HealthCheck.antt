-- ===== src/LoadBalancer/HealthCheck.antt =====
-- internal/loadbalancer/loadbalancer.go, `checkAllBackends`: the check of one backend. What a ping
-- answers and when is an argument; `none` is a panic.
pub mod Machine
pub mod Streaks
pub mod Total
pub mod Pinged
pub mod Rounds
use rms_gate.Base.{
  ℕ, true, false, not, ◌&&◌, Option, none, some, if◌then◌else◌, ◌>>=◌, ℤ, pos, int32, le_32,
}
use rms_gate.Float64.{Floats}
use rms_gate.LoadBalancer.Backend.{
  Backend, milliseconds, record_latency, increase_trust, reset_trust, record_health_check_success,
  record_health_check_failure, reset_success_count, set_healthy, set_last_check_time,
}
use rms_gate.LoadBalancer.Backend.Metrics.{jitter}
use rms_gate.LoadBalancer.History.{Cache, record_sample}

pub record HealthCheckConfig (F : Type 0) : Type 0 where
  pub interval_seconds : ℤ
  pub window_size : ℤ
  pub unhealthy_after_failures : ℤ
  pub healthy_after_successes : ℤ
  pub jitter_threshold : F
  pub dial_timeout_seconds : ℤ

-- A ping: its latency in nanoseconds or an error, when it ends, and the period of the day then.
pub record Ping : Type 0 where
  pub latency : Option ℕ
  pub ended : ℤ
  pub period : ℕ

-- The branch of a failed ping.
unfoldable pub after_failure : ℤ → Backend → Backend
after_failure unhealthy_after b =
    let b1 = record_health_check_failure b in
    if le_32 (int32 unhealthy_after) b1.fail_count && b1.healthy then set_healthy b1 false else b1

-- The branch of a ping that succeeds, behind the latency sample and the history.
unfoldable pub after_success : ℤ → Backend → Backend
after_success healthy_after b =
    let b1 = record_health_check_success b in
    if not b.healthy
    then (if le_32 (int32 healthy_after) b1.success_count
        then reset_success_count (reset_trust (set_healthy b1 true))
        else b1)
    else increase_trust b1

module _ (fl : Floats) where
  open fl use {Float, of_int}

  -- The body of the loop, for one backend.
  unfoldable pub check_backend :
      HealthCheckConfig Float → Ping → Backend → Cache Float → Option (Backend × Cache Float)
  unfolding after_failure after_success
  check_backend cfg ping b cache =
      if b.disabled
      then some (b, cache)
      else let b1 = set_last_check_time b ping.ended in
        elim ping.latency [
          | none ↦ some (after_failure cfg.unhealthy_after_failures b1, cache)
          | some latency ↦ record_latency b1 latency >>= λ b2.
              record_sample fl cache b2.addr ping.period (of_int (pos (milliseconds latency)))
                (jitter fl b2)
              >>= λ r. some (after_success cfg.healthy_after_successes b2, r.0)
        ]
