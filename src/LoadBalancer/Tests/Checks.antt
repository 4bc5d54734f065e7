-- ===== src/LoadBalancer/Tests/Checks.antt =====
-- The health check and the history.
use rms_gate.Base.{
  ℕ, ◌+◌, String, ◌≡◌, refl, ap, inl, inr, true, false, ◌&&◌, none, some, [], ◌∷◌, arith, ◌==◌,
  if◌then◌else◌, Bool-cases, Occurs, pos, negsuc, ◌≤ℤ◌, ltb_ℤ, str_eq, str_eq_iff, lookup,
}
use mathlib.Core.Option.{some-injective}
use rms_gate.Float64.Fixed.{fixed, fixed_laws}
use rms_gate.LoadBalancer.History.{
  Cache, Row, PeriodStats, record_sample, load_row, historical_score, get_period_stats,
}
use rms_gate.LoadBalancer.History.Records.{IsComplete, slot}
use rms_gate.LoadBalancer.History.Samples.{Counts, record_sample-Counts}
use rms_gate.LoadBalancer.History.Adjustment.{adjustment, historical_score_lem}
use rms_gate.LoadBalancer.HealthCheck.{Ping, after_failure, after_success}
use rms_gate.LoadBalancer.HealthCheck.Machine.{view, fail, succeed, InRange, view-ping}
use rms_gate.LoadBalancer.HealthCheck.Streaks.{times, failures-unhealthy, successes_recover}
use rms_gate.LoadBalancer.HealthCheck.Rounds.{Tick, check_all_backends, health_check_loop}
use rms_gate.LoadBalancer.HealthCheck.Rounds.Complete.{Ready, Whole, round-Whole}
use rms_gate.LoadBalancer.HealthCheck.Rounds.Starved.{Starving, starved}
use rms_gate.LoadBalancer.Server.{ServerInfo}
use rms_gate.LoadBalancer.Tests.Data.{quiet, off, ill, fresh, server, cfg, good_ping, no_history}

quiet_range : InRange quiet
quiet_range = record { fails = omega arith; successes = omega arith; trusted = omega arith }

view-ping_example :
    (view (after_failure (pos 1) quiet) ≡ fail 1 (view quiet))
    × (view (after_success (pos 3) quiet) ≡ succeed 3 (view quiet))
view-ping_example = view-ping quiet 1 3 quiet_range (omega arith) (omega arith)

failures-unhealthy_example : (times 4 (after_failure (pos 3)) quiet).healthy ≡ false
failures-unhealthy_example =
    failures-unhealthy 4 3 quiet refl refl (omega arith) (omega arith) (omega arith)

successes_recover_example :
    let b' = times (3 + 2) (after_success (pos 3)) ill in
    (b'.healthy ≡ true) × (b'.trust_coeff ≡ 70)
successes_recover_example = successes_recover 3 2 ill refl refl (omega arith) (omega arith)

-- Every backend answers.
abbrev answer : String → ℕ → Ping
answer name i = good_ping

-- A server whose second backend has no window.
abbrev halted : ServerInfo fixed.Float
halted = record server { backends = off ∷ fresh ∷ quiet ∷ [] }

abbrev tick : Tick
tick = record { order = "lobby" ∷ "survival" ∷ []; pings = answer }

starved_example :
    Starving fixed "survival" 1
      (quiet ∷ [])
      (health_check_loop fixed cfg (tick ∷ tick ∷ []) (("survival", halted) ∷ [], [])).0
unfolding lookup str_eq
starved_example =
    starved fixed cfg "survival" 1 (quiet ∷ []) (tick ∷ tick ∷ []) (("survival", halted) ∷ []) []
      ((40_000_000, refl), ((40_000_000, refl), tt))
      (
        halted,
        refl,
        record {
          front = off ∷ [];
          stuck = fresh;
          split = refl;
          place = refl;
          panics = record { on = refl; empty = refl; no_room = omega arith };
        },
      )

windows : Ready fixed cfg (("survival", server) ∷ [])
unfolding lookup str_eq
windows name s e = elim (Bool-cases (str_eq "survival" name)) [
  | inl same ↦
      let at : server ≡ s =
        some-injective _ _ (rw⁻¹ (ap (λ b. if b then some server else none) same) e) in
      rw⁻¹ at (inr (omega arith), (inr (omega arith), (inr (omega arith), tt)))
  | inr other ↦ absurd (ground (arith, other, e))
]

once : ¬ Occurs {A = String} "lobby" ("survival" ∷ [])
unfolding str_eq
once h = elim h [
  | inl e ↦ absurd (ground (arith, (str_eq_iff "survival" "lobby").1 e))
  | inr never ↦ never
]

round-Whole_example :
    Whole fixed cfg answer ("lobby" ∷ "survival" ∷ []) (("survival", server) ∷ []) (
      check_all_backends fixed cfg answer
        ("lobby" ∷ "survival" ∷ [])
        (("survival", server) ∷ [])
        [])
round-Whole_example =
    round-Whole fixed cfg answer ("lobby" ∷ "survival" ∷ []) (("survival", server) ∷ []) []
      (λ name j. omega arith) (once, ((λ h. h), tt)) windows no_history

record_sample-Counts_example :
    (cache' : Cache fixed.Float) × (old : PeriodStats fixed.Float) × (new : PeriodStats fixed.Float)
    × (slot fixed [] "a" 40 ≡ some old)
    × (record_sample fixed [] "a" 40 (pos 20_000) (pos 1000) ≡ some (cache', new))
    × Counts fixed old new (pos 20_000) (pos 1000)
    × ((other : String) (i : ℕ)
        → slot fixed cache' other i
          ≡ (if str_eq "a" other && (40 == i) then some new else slot fixed [] other i))
    × IsComplete fixed cache'
record_sample-Counts_example =
    record_sample-Counts fixed [] "a" 40 (pos 20_000) (pos 1000) no_history (omega arith)

abbrev row : Row fixed
row = record {
  backend_addr = "a";
  row_index = pos 40;
  row_label = [];
  row_latency = pos 100_000;
  row_jitter = pos 1000;
  row_samples = pos 30;
}

historical_score_lem_example :
    let cache = load_row fixed [] (some row) in
    let score = historical_score fixed cache "a" 40 (pos 60_000) (pos 2000) in
    (score ≡ elim (get_period_stats fixed cache "a" (pos 40)) [
      | none ↦ pos 0
      | some stats ↦
          if ltb_ℤ stats.samples (pos 20)
          then pos 0
          else adjustment fixed stats (pos 60_000) (pos 2000)
    ])
    × (negsuc 11 ≤ℤ score)
    × (score ≤ℤ pos 12)
historical_score_lem_example =
    historical_score_lem fixed fixed_laws (load_row fixed [] (some row)) "a" 40 (pos 60_000)
      (pos 2000)
