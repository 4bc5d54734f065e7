-- ===== src/LoadBalancer/HealthCheck/Machine.antt =====
-- The health check as a state machine: a backend that is up counts failures and trust, one that
-- is down counts successes.
use rms_gate.Base.{ℕ, ◌+◌, ◌≤◌, ◌<◌, ◌≡◌, arith, ltb, leb, if◌then◌else◌, pos, two_31}
use rms_gate.LoadBalancer.Backend.{
  Backend, increase_trust, reset_trust, record_health_check_success, record_health_check_failure,
  reset_success_count, set_healthy,
}
use rms_gate.LoadBalancer.HealthCheck.{after_failure, after_success}

pub data Health : Type 0 where
  up : ℕ → ℕ → Health
  down : ℕ → Health

pub view : Backend → Health
view b = if b.healthy then up b.fail_count b.trust_coeff else down b.success_count

-- `limit` failures in a row take a backend down.
pub fail : ℕ → Health → Health
fail limit (up fails trust) = if leb limit (fails + 1) then down 0 else up (fails + 1) trust
fail limit (down successes) = down 0

-- `limit` successes in a row bring it up again, with half the trust, which then grows by 10.
pub succeed : ℕ → Health → Health
succeed limit (up fails trust) = up 0 (if ltb trust 90 then trust + 10 else 100)
succeed limit (down successes) = if leb limit (successes + 1) then up 0 50 else down (successes + 1)

-- The counters are not at the end of their range, and trust is a percentage from 50 on.
pub record InRange (b : Backend) : Type 0 where
  pub fails : b.fail_count + 1 < two_31
  pub successes : b.success_count + 1 < two_31
  pub trusted : (50 ≤ b.trust_coeff) × (b.trust_coeff ≤ 100)

view-after_failure :
    (b : Backend) (limit : ℕ)
    → InRange b
    → limit < two_31
    → view (after_failure (pos limit) b) ≡ fail limit (view b)
unfolding view fail after_failure record_health_check_failure set_healthy
view-after_failure b limit r h = ground (arith, r.fails)

view-after_success :
    (b : Backend) (limit : ℕ)
    → InRange b
    → limit < two_31
    → view (after_success (pos limit) b) ≡ succeed limit (view b)
unfolding view succeed after_success record_health_check_success set_healthy reset_trust
    reset_success_count increase_trust
view-after_success b limit r h = ground (arith, r.successes, r.trusted)

-- On a backend's health, failures, successes and trust, a failed ping is the step `fail` of the
-- machine and a good one the step `succeed`, for counters within their range and limits that fit
-- int32.
pub view-ping :
    (b : Backend) (limit enough : ℕ)
    → InRange b
    → limit < two_31
    → enough < two_31
    → (view (after_failure (pos limit) b) ≡ fail limit (view b))
      × (view (after_success (pos enough) b) ≡ succeed enough (view b))
view-ping b limit enough r h k = (view-after_failure b limit r h, view-after_success b enough r k)
