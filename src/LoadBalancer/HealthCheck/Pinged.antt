-- ===== src/LoadBalancer/HealthCheck/Pinged.antt =====
-- internal/loadbalancer/backend.go, `MCPing`, and what the health check makes of it.
use rms_gate.Base.{
  ℕ, ◌+◌, ◌*◌, ◌≤◌, ◌<◌, ◌≡◌, sym, ap, ◌∙◌, inl, inr, Bool, true, false, Option, none, some, List,
  ◌++◌, ◌>>=◌, length, two_31, codes,
}
use mathlib.Core.Option.{some-injective}
use rms_gate.Float64.{Floats}
use rms_gate.Minecraft.Packet.{var_int, write_packet}
use rms_gate.Minecraft.Ping.{Connection, port_of, mc_ping_addr_string, ping_up}
use rms_gate.LoadBalancer.Backend.{Backend, record_latency, set_last_check_time}
use rms_gate.LoadBalancer.History.{Cache}
use rms_gate.LoadBalancer.History.Records.{IsComplete}
use rms_gate.LoadBalancer.HealthCheck.{HealthCheckConfig, Ping, after_success, check_backend}
use rms_gate.LoadBalancer.HealthCheck.Total.{HasWindow, check_backend_lem}

-- The nanoseconds that a ping took, `none` for one that failed; a ping that does not end is `none`
-- outside. It dials and exchanges as `MCPingAddrString` does.
unfoldable pub mc_ping :
    (List ℕ → List ℕ × List ℕ)
    → (List ℕ → Option ℕ)
    → Option Connection
    → ℕ
    → Backend
    → Option (Option ℕ)
mc_ping split scan dial elapsed b = mc_ping_addr_string split scan dial (codes b.addr) >>= λ r.
    some (elim r [ none ↦ some elapsed | some e ↦ none ])

module _ (split : List ℕ → List ℕ × List ℕ) (scan : List ℕ → Option ℕ) (fl : Floats)
    (cfg : HealthCheckConfig fl.Float) where
  answered :
      (ping : Ping) (b : Backend) (cache : Cache fl.Float) (l : ℕ)
      → ping.latency ≡ some l
      → ping.period < 96
      → b.disabled ≡ false
      → HasWindow b
      → IsComplete fl cache
      → (b2 : Backend) × (cache' : Cache fl.Float) × (record_latency
            (set_last_check_time b ping.ended)
            l
          ≡ some b2)
        × (check_backend fl cfg ping b cache
            ≡ some (after_success cfg.healthy_after_successes b2, cache'))
  answered ping b cache l good day on w c =
      let (b', cache', e, o, _) = check_backend_lem fl cfg ping b cache w c day in
      elim o [
        | inl (off, _) ↦ absurd cc
        | inr (inl (_, bad, _)) ↦ absurd cc
        | inr (inr (l', b2, _, good', kept, q)) ↦
            let same : l' ≡ l = some-injective _ _ (sym good' ∙ good) in
            (b2, cache', rw⁻¹ same kept, e ∙ ap (λ x. some (x, cache')) q)
      ]

  -- A backend that is not disabled and whose server answers the ping with a status packet, id 0 and a
  -- text that is not empty, passes its check: the latency is recorded and the check takes the
  -- branch of a success. As for the ping itself, every write succeeds, the text is at least ten bytes
  -- shorter than 2^20, the address fits a packet and the port two bytes; the window has room or
  -- samples, and the history is complete.
  pub status_passes :
      (ping : Ping) (b : Backend) (cache : Cache fl.Float) (elapsed : ℕ) (sent : ℕ → Bool)
      (text rest id count packet : List ℕ) (n : ℕ)
      → length (split (codes b.addr)).0 + 22 ≤ 1024 * 1024
      → port_of split scan (codes b.addr) < 65536
      → ((i : ℕ) → sent i ≡ true)
      → 1 ≤ n
      → n < two_31
      → length text + 10 ≤ 1024 * 1024
      → var_int 0 ≡ some id
      → var_int n ≡ some count
      → write_packet (id ++ (count ++ text)) ≡ some packet
      → mc_ping split scan (some (record { sent = sent; answer = packet ++ rest })) elapsed b
        ≡ some ping.latency
      → ping.period < 96
      → b.disabled ≡ false
      → HasWindow b
      → IsComplete fl cache
      → (b2 : Backend) × (cache' : Cache fl.Float) × (record_latency
            (set_last_check_time b ping.ended)
            elapsed
          ≡ some b2)
        × (check_backend fl cfg ping b cache
            ≡ some (after_success cfg.healthy_after_successes b2, cache'))
  unfolding mc_ping
  status_passes ping b cache elapsed sent text rest id count packet n fits port all lo hi small w0
        wn written pinged day on w c =
      let up =
        ping_up split scan (codes b.addr) text rest id count packet n sent fits port all lo hi small
          w0 wn written in
      let found : some (some elapsed) ≡ some ping.latency = rw (mc_ping, up) at pinged in
      answered ping b cache elapsed (sym (some-injective _ _ found)) day on w c
