-- ===== src/LoadBalancer/Tests/Pings.antt =====
-- A check whose ping is answered.
use rms_gate.Base.{ℕ, ◌≡◌, refl, inr, true, Option, none, some, List, [], ◌∷◌, ◌++◌, arith, codes}
use rms_gate.Float64.Fixed.{fixed}
use rms_gate.Minecraft.VarInt.{write_var_int, shr7_32}
use rms_gate.Minecraft.Packet.{write_packet}
use rms_gate.Minecraft.Ping.{port_of, ping_up}
use rms_gate.LoadBalancer.Backend.{Backend, record_latency, set_last_check_time}
use rms_gate.LoadBalancer.History.{Cache}
use rms_gate.LoadBalancer.HealthCheck.{after_success, check_backend}
use rms_gate.LoadBalancer.HealthCheck.Pinged.{mc_ping, status_passes}
use rms_gate.LoadBalancer.Tests.Data.{quiet, cfg, good_ping, no_history}

abbrev no_port : List ℕ → List ℕ × List ℕ
no_port addr = (addr, [])

abbrev no_number : List ℕ → Option ℕ
no_number text = none

abbrev answer : List ℕ
answer = (3 ∷ 0 ∷ 1 ∷ 123 ∷ []) ++ (9 ∷ [])

pinged :
    mc_ping no_port no_number (some (record { sent = λ i. true; answer = answer })) 40_000_000 quiet
    ≡ some good_ping.latency
unfolding mc_ping port_of write_packet write_var_int shr7_32
pinged =
    let up =
      ping_up no_port no_number (codes quiet.addr) (123 ∷ []) (9 ∷ []) (0 ∷ []) (1 ∷ [])
        (3 ∷ 0 ∷ 1 ∷ 123 ∷ []) 1 (λ i. true) (omega arith) (omega arith) (λ i. refl) (omega arith)
        (omega arith) (omega arith) refl refl refl in
    rw (mc_ping, up) refl

status_passes_example :
    (b2 : Backend) × (cache' : Cache fixed.Float) × (record_latency
        (set_last_check_time quiet good_ping.ended)
        40_000_000
      ≡ some b2)
    × (check_backend fixed cfg good_ping quiet []
        ≡ some (after_success cfg.healthy_after_successes b2, cache'))
unfolding port_of write_packet write_var_int shr7_32
status_passes_example =
    status_passes no_port no_number fixed cfg good_ping quiet [] 40_000_000 (λ i. true) (123 ∷ [])
      (9 ∷ []) (0 ∷ []) (1 ∷ []) (3 ∷ 0 ∷ 1 ∷ 123 ∷ []) 1 (omega arith) (omega arith) (λ i. refl)
      (omega arith) (omega arith) (omega arith) refl refl refl pinged (omega arith) refl
      (inr (omega arith)) no_history
