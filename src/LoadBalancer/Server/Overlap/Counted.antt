-- ===== src/LoadBalancer/Server/Overlap/Counted.antt =====
-- What each call does to one backend's count.
use rms_gate.Base.{
  ℕ, suc, ◌+◌, ◌≤◌, ◌<◌, String, ◌≡◌, ◌⊎◌, inl, inr, Bool, true, Option, some, arith, Option-cases,
  >>=-eq-some, length, ℤ, pos, pos_part, ◌≤ℤ◌, two_31, add_name, length-remove_name,
}
use rms_gate.Float64.{Floats}
use rms_gate.LoadBalancer.Backend.{
  Backend, record_latency, is_available, add_player, remove_player, record_success, record_failure,
  set_healthy, set_disabled, reset_success_count, set_last_check_time, record_health_check_success,
  record_health_check_failure, increase_trust, reset_trust, milliseconds,
}
use rms_gate.LoadBalancer.Backend.Metrics.{jitter}
use rms_gate.LoadBalancer.Backend.Window.{record_latency-frame}
use rms_gate.LoadBalancer.History.{Cache, record_sample}
use rms_gate.LoadBalancer.HealthCheck.{HealthCheckConfig, Ping, after_failure, after_success}
use rms_gate.LoadBalancer.HealthCheck.Rounds.{run_answer}
use rms_gate.LoadBalancer.Server.{dial_failed, dial_succeeded}

-- What holds of a backend with a limit to which `n` dials are under way.
pub record Counted (k n : ℕ) (b : Backend) : Type 0 where
  pub listed : length b.players ≤ b.current_conns
  pub counted : b.current_conns + n + 1 ≤ pos_part b.max_connections + k
  pub fits : pos_part b.max_connections + k < two_31

abbrev pub Kept : ℕ → ℕ → Backend → Type 0
Kept k n b = (b.max_connections ≤ℤ pos 0) ⊎ Counted k n b

-- A backend to which no dial is under way.
pub record Starts (k : ℕ) (b : Backend) : Type 0 where
  pub known : length b.players ≤ b.current_conns
  pub within : (b.max_connections ≤ℤ pos 0) ⊎ (b.current_conns ≤ pos_part b.max_connections)
  pub small : pos_part b.max_connections + k < two_31

pub Starts-Kept : (k : ℕ) (b : Backend) → 1 ≤ k → Starts k b → Kept k 0 b
Starts-Kept k b h s = elim s.within [
  | inl free ↦ inl free
  | inr w ↦ inr (record { listed = s.known; counted = omega (arith, w, h); fits = s.small })
]

pub chosen-Kept :
    (k n : ℕ) (b : Backend) → is_available b ≡ true → n < k → Kept k n b → Kept k (n + 1) b
unfolding is_available
chosen-Kept k n b a h v = ground (arith, a, h, v)

pub failed-Kept :
    (k n : ℕ) (u : ℤ) (b b' : Backend) (l : ℕ)
    → dial_failed u b l ≡ some b'
    → Kept k (suc n) b
    → Kept k n b'
unfolding dial_failed record_failure set_healthy reset_success_count
failed-Kept k n u b b' l h v =
    let (c, e, q) = >>=-eq-some (record_latency (record_failure b) l) _ b' h in
    ground (arith, q, v, record_latency-frame (record_failure b) c l e)

pub dialled-Kept :
    (k n : ℕ) (b b' : Backend) (player : Option String) (l : ℕ)
    → dial_succeeded b player l ≡ some b'
    → Kept k (suc n) b
    → Kept k n b'
unfolding dial_succeeded record_success add_player add_name
dialled-Kept k n b b' player l h v =
    let (c, e, q) = >>=-eq-some (record_latency (record_success b) l) _ b' h in
    ground (arith, q, v, record_latency-frame (record_success b) c l e)

pub removed-Kept :
    (k n : ℕ) (b : Backend) (name : String) → Kept k n b → Kept k n (remove_player b name)
unfolding remove_player
removed-Kept k n b name v = ground (arith, v, length-remove_name name b.players)

pub switched-Kept :
    (k n : ℕ) (b : Backend) (disabled : Bool) → Kept k n b → Kept k n (set_disabled b disabled)
unfolding set_disabled
switched-Kept k n b disabled v = ground (arith, v)

-- A check leaves the players, their count, the limit and the switch alone.
abbrev pub Same : Backend → Backend → Type 0
Same b b' =
    (b'.players ≡ b.players)
    × (b'.current_conns ≡ b.current_conns)
    × (b'.max_connections ≡ b.max_connections)
    × (b'.disabled ≡ b.disabled)

after_failure-Same : (u : ℤ) (b : Backend) → Same b (after_failure u b)
unfolding after_failure record_health_check_failure set_healthy
after_failure-Same u b = ground arith

after_success-Same : (u : ℤ) (b : Backend) → Same b (after_success u b)
unfolding after_success record_health_check_success set_healthy reset_trust reset_success_count
    increase_trust
after_success-Same u b = ground arith

checked-Same : (b : Backend) (t : ℤ) → Same b (set_last_check_time b t)
unfolding set_last_check_time
checked-Same b t = ground arith

Same-trans : (a b c : Backend) → Same a b → Same b c → Same a c
Same-trans a b c p q = ground (arith, p, q)

latency-Same : (b b' : Backend) (l : ℕ) → record_latency b l ≡ some b' → Same b b'
latency-Same b b' l kept = ground (arith, record_latency-frame b b' l kept)

-- What a ping leaves, whether its check ends or panics.
pub run_answer-Same :
    (fl : Floats) (cfg : HealthCheckConfig fl.Float) (ping : Ping) (b : Backend)
    (cache : Cache fl.Float)
    → Same b (run_answer fl cfg ping b cache).state.0
run_answer-Same fl cfg ping b cache =
    let b1 = set_last_check_time b ping.ended in
    let first = checked-Same b ping.ended in
    elim (Option-cases ping.latency) [
      | inl bad ↦
          simp (run_answer, bad)
            (Same-trans b b1 (after_failure cfg.unhealthy_after_failures b1) first
              (after_failure-Same cfg.unhealthy_after_failures b1))
      | inr (l, good) ↦ elim (Option-cases (record_latency b1 l)) [
        | inl panic ↦ simp (run_answer, good, panic) first
        | inr (b2, kept) ↦
            let second = Same-trans b b1 b2 first (latency-Same b1 b2 l kept) in
            let last =
              Same-trans b b2 (after_success cfg.healthy_after_successes b2) second
                (after_success-Same cfg.healthy_after_successes b2) in
            elim (Option-cases (
              record_sample fl cache b2.addr ping.period (fl.of_int (pos (milliseconds l)))
                (jitter fl b2))) [
                  | inl panic ↦ simp (run_answer, good, kept, panic) second
                  | inr (r, wrote) ↦ simp (run_answer, good, kept, wrote) last
                ]
      ]
    ]
