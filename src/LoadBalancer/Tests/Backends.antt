-- ===== src/LoadBalancer/Tests/Backends.antt =====
-- One backend.
use rms_gate.Base.{◌+◌, ◌≡◌, refl, some, [], ◌∷◌, arith, length, pos, ◌+ℤ◌, ◌-ℤ◌}
use rms_gate.Float64.Fixed.{fixed}
use rms_gate.LoadBalancer.Backend.Players.{joins, leaves, play, repeats, play-Counts}
use rms_gate.LoadBalancer.Backend.Window.{record_all, record_all-last_of}
use rms_gate.LoadBalancer.Backend.Metrics.{raw_score, relative_health_score}
use rms_gate.LoadBalancer.Tests.Data.{quiet}

play-Counts_example :
    let es = joins "cid" ∷ joins "cid" ∷ leaves "ann" ∷ [] in
    (play es quiet).current_conns ≡ length (play es quiet).players + (0 + repeats es quiet)
play-Counts_example =
    play-Counts (joins "cid" ∷ joins "cid" ∷ leaves "ann" ∷ []) 0 quiet
      (record { balance = refl; fits = omega arith }) (omega arith)

record_all-last_of_example :
    record_all quiet (40_000_000 ∷ 50_900_000 ∷ [])
    ≡ some (record quiet { latency_window = 30 ∷ 40 ∷ 50 ∷ [] })
record_all-last_of_example =
    record_all-last_of 2 (40_000_000 ∷ 50_900_000 ∷ []) quiet refl (omega arith)

quiet_score : relative_health_score fixed quiet (pos 20_000) (pos 25_000) ≡ pos 78
unfolding relative_health_score raw_score ◌+ℤ◌ ◌-ℤ◌
quiet_score = refl
