-- ===== src/LoadBalancer/HealthCheck/Streaks.antt =====
-- Streaks of failed and of successful pings.
use rms_gate.Base.{
  ℕ, zero, suc, ◌+◌, ◌-◌, ◌*◌, ◌≤◌, ◌<◌, ◌≡◌, ap, ◌∙◌, inl, inr, true, false, arith, ltb,
  if◌then◌else◌, Bool-cases, ℤ, pos, two_31,
}
use Prim.Native.Nat.add
use rms_gate.LoadBalancer.Backend.{
  Backend, increase_trust, reset_trust, record_health_check_success, record_health_check_failure,
  reset_success_count, set_healthy,
}
use rms_gate.LoadBalancer.HealthCheck.{after_failure, after_success}

-- `k` turns of one branch, one after the other.
pub times : ℕ → (Backend → Backend) → Backend → Backend
times zero step b = b
times (suc k) step b = times k step (step b)

fail_down :
    (k : ℕ) (limit : ℤ) (b : Backend)
    → b.healthy ≡ false
    → (times k (after_failure limit) b).healthy ≡ false
unfolding times
fail_down zero limit b h = h
fail_down (suc k) limit b h =
    fail_down k limit (after_failure limit b)
      (unfold after_failure record_health_check_failure set_healthy in ground arith)

fail_up :
    (k limit fails : ℕ) (b : Backend)
    → b.healthy ≡ true
    → b.fail_count ≡ fails
    → fails < limit
    → fails + k < two_31
    → limit < two_31
    → (times k (after_failure (pos limit)) b).healthy ≡ ltb (fails + k) limit
unfolding times after_failure record_health_check_failure set_healthy
fail_up zero limit fails b up e h r l = ground arith
fail_up (suc k) limit fails b up e h r l = elim (Bool-cases (ltb (fails + 1) limit)) [
  | inl q ↦
      let b' = after_failure (pos limit) b in
      let up' : b'.healthy ≡ true = ground arith in
      let e' : b'.fail_count ≡ fails + 1 = ground arith in
      fail_up k limit (fails + 1) b' up' e' (ground arith) (omega arith) l ∙ ground arith
  | inr q ↦
      let b' = after_failure (pos limit) b in
      let down : b'.healthy ≡ false = ground arith in fail_down k (pos limit) b' down ∙ ground arith
]

-- From a backend with no failures, it takes exactly `limit` failed pings in a row to take it down.
pub failures-unhealthy :
    (k limit : ℕ) (b : Backend)
    → b.healthy ≡ true
    → b.fail_count ≡ 0
    → 1 ≤ limit
    → limit < two_31
    → k < two_31
    → (times k (after_failure (pos limit)) b).healthy ≡ ltb k limit
failures-unhealthy k limit b up e h l r = fail_up k limit 0 b up e h (omega arith) l ∙ ground arith

abbrev pub min_100 : ℕ → ℕ
min_100 n = if ltb n 100 then n else 100

succeed_up :
    (j trust : ℕ) (limit : ℤ) (b : Backend)
    → b.healthy ≡ true
    → b.trust_coeff ≡ min_100 trust
    → 50 ≤ trust
    → let b' = times j (after_success limit) b in
      (b'.healthy ≡ true) × (b'.trust_coeff ≡ min_100 (trust + 10 * j))
unfolding times after_success record_health_check_success increase_trust
succeed_up zero trust limit b up e h = ground arith
succeed_up (suc j) trust limit b up e h =
    let b' = after_success limit b in
    let up' : b'.healthy ≡ true = ground arith in
    let e' : b'.trust_coeff ≡ min_100 (trust + 10) = ground arith in
    let ih = succeed_up j (trust + 10) limit b' up' e' (omega arith) in (ih.0, ih.1 ∙ ground arith)

succeed_down :
    (k limit successes : ℕ) (b : Backend)
    → b.healthy ≡ false
    → b.success_count ≡ successes
    → successes + k < limit
    → limit < two_31
    → let b' = times k (after_success (pos limit)) b in
      (b'.healthy ≡ false) × (b'.success_count ≡ successes + k)
unfolding times after_success record_health_check_success
succeed_down zero limit successes b d e h l = ground arith
succeed_down (suc k) limit successes b d e h l =
    let b' = after_success (pos limit) b in
    let d' : b'.healthy ≡ false = ground arith in
    let e' : b'.success_count ≡ successes + 1 = ground arith in
    let ih = succeed_down k limit (successes + 1) b' d' e' (omega arith) l in (ih.0, omega arith)

times-add :
    (j k : ℕ) (step : Backend → Backend) (b : Backend)
    → times (j + k) step b ≡ times k step (times j step b)
unfolding times
times-add zero k step b = ap (λ n. times n step b) (add.zero k)
times-add (suc j) k step b = ap (λ n. times n step b) (add.suc j k) ∙ times-add j k step (step b)

last_success :
    (limit : ℕ) (b : Backend)
    → b.healthy ≡ false
    → b.success_count + 1 ≡ limit
    → limit < two_31
    → let b' = after_success (pos limit) b in
      (b'.healthy ≡ true) × (b'.trust_coeff ≡ 50) × (b'.success_count ≡ 0)
unfolding after_success record_health_check_success set_healthy reset_trust reset_success_count
last_success limit b d e l = ground arith

-- A backend that went down stays down for a streak of fewer than `limit` successes.
successes_short :
    (k limit : ℕ) (b : Backend)
    → b.healthy ≡ false
    → b.success_count ≡ 0
    → k < limit
    → limit < two_31
    → (times k (after_success (pos limit)) b).healthy ≡ false
successes_short k limit b d e h l = (succeed_down k limit 0 b d e (omega arith) l).0

-- After `limit` successes in a row it is up, with trust 50; each further one adds 10, up to 100.
pub successes_recover :
    (limit j : ℕ) (b : Backend)
    → b.healthy ≡ false
    → b.success_count ≡ 0
    → 1 ≤ limit
    → limit < two_31
    → let b' = times (limit + j) (after_success (pos limit)) b in
      (b'.healthy ≡ true) × (b'.trust_coeff ≡ min_100 (50 + 10 * j))
unfolding times
successes_recover limit j b d e h l =
    let step = after_success (pos limit) in
    let k : ℕ = limit - 1 in
    let split : limit + j ≡ k + suc j = omega arith in
    let (down, count) = succeed_down k limit 0 b d e (omega arith) l in
    let (healthy, trust, _) = last_success limit (times k step b) down (omega arith) l in
    rw (split, times-add k (suc j) step b)
      (succeed_up j 50 (pos limit) (step (times k step b)) healthy (ground arith) (omega arith))
