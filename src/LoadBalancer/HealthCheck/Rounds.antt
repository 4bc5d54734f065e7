-- ===== src/LoadBalancer/HealthCheck/Rounds.antt =====
-- internal/loadbalancer/loadbalancer.go, `healthCheckLoop` and `checkAllBackends`: rounds of the
-- health check, with what a panic leaves behind. A round walks the servers in an order that is
-- given by their names, since Go walks a map in any order, and here no other call runs between its
-- steps; Server.Overlap has `run_answer` among the calls of many players.
pub mod Complete
pub mod Starved
pub mod Walk
use rms_gate.Base.{
  ℕ, ◌+◌, ◌*◌, ◌^◌, String, Bool, true, false, Option, none, some, List, [], ◌∷◌, ◌==◌,
  if◌then◌else◌, ℤ, pos, mul_64, ltb_ℤ, ◌==ℤ◌, lookup, insert,
}
use rms_gate.Float64.{Floats}
use rms_gate.LoadBalancer.Backend.{Backend, milliseconds, record_latency, set_last_check_time}
use rms_gate.LoadBalancer.Backend.Metrics.{jitter}
use rms_gate.LoadBalancer.History.{Cache, history_of, record_sample}
use rms_gate.LoadBalancer.Server.{ServerInfo}
use rms_gate.LoadBalancer.HealthCheck.{HealthCheckConfig, Ping, after_failure, after_success}

-- The result of a part of a round, and whether it ended in a panic.
pub record Left (A : Type 0) : Type 0 where
  pub state : A
  pub panicked : Bool

-- The servers, in the order in which a round walks them, and the pings of their backends.
pub record Tick : Type 0 where
  pub order : List String
  pub pings : String → ℕ → Ping

module _ (fl : Floats) where
  open fl use {Float, of_int}

  -- The body of the inner loop behind the ping, which may take seconds. `RecordLatency` panics
  -- before it changes the backend, `Record` when the history of the backend is in the cache.
  abbrev pub run_answer :
      HealthCheckConfig Float → Ping → Backend → Cache Float → Left (Backend × Cache Float)
  run_answer cfg ping b cache =
      let b1 = set_last_check_time b ping.ended in
      elim ping.latency [
        | none ↦ record {
          state = (after_failure cfg.unhealthy_after_failures b1, cache);
          panicked = false;
        }
        | some latency ↦ elim (record_latency b1 latency) [
          | none ↦ record { state = (b1, cache); panicked = true }
          | some b2 ↦
              elim (record_sample fl cache b2.addr ping.period (of_int (pos (milliseconds latency)))
                (jitter fl b2)) [
                  | none ↦ record {
                    state = (b2, insert b2.addr (history_of fl cache b2.addr) cache);
                    panicked = true;
                  }
                  | some r ↦ record {
                    state = (after_success cfg.healthy_after_successes b2, r.0);
                    panicked = false;
                  }
                ]
        ]
      ]

  unfoldable pub run_backend :
      HealthCheckConfig Float → Ping → Backend → Cache Float → Left (Backend × Cache Float)
  run_backend cfg ping b cache =
      if b.disabled
      then record { state = (b, cache); panicked = false }
      else run_answer cfg ping b cache

  -- The backends of one server, from position `i` on; a panic leaves those behind it as they are.
  unfoldable pub run_backends :
      HealthCheckConfig Float
      → (ℕ → Ping)
      → ℕ
      → List Backend
      → Cache Float
      → Left (List Backend × Cache Float)
  unfolding run_backend
  run_backends cfg pings i [] cache = record { state = ([], cache); panicked = false }
  run_backends cfg pings i (b ∷ bs) cache =
      let one = run_backend cfg (pings i) b cache in
      let rest = run_backends cfg pings (i + 1) bs one.state.1 in
      if one.panicked
      then record { state = (one.state.0 ∷ bs, one.state.1); panicked = true }
      else record { state = (one.state.0 ∷ rest.state.0, rest.state.1); panicked = rest.panicked }

  abbrev pub Table : Type 0
  Table = List (String × ServerInfo Float)

  -- `checkAllBackends`: the servers of `order`, of which the table may have lost none.
  unfoldable pub check_all_backends :
      HealthCheckConfig Float
      → (String → ℕ → Ping)
      → List String
      → Table
      → Cache Float
      → Left (Table × Cache Float)
  unfolding run_backends
  check_all_backends cfg pings [] servers cache = record {
    state = (servers, cache);
    panicked = false;
  }
  check_all_backends cfg pings (name ∷ names) servers cache = elim (lookup name servers) [
    | none ↦ check_all_backends cfg pings names servers cache
    | some s ↦
        let one = run_backends cfg (pings name) 0 s.backends cache in
        let servers' = insert name (record s { backends = one.state.0 }) servers in
        let rest = check_all_backends cfg pings names servers' one.state.1 in
        if one.panicked then record { state = (servers', one.state.1); panicked = true } else rest
  ]

  -- The interval of the ticker in nanoseconds; `none` is the panic of `NewTicker` at a negative one.
  unfoldable pub ticker_interval : HealthCheckConfig Float → Option ℤ
  ticker_interval cfg =
      let interval = mul_64 cfg.interval_seconds (10 ^ 9) in
      if interval ==ℤ pos 0
      then some (pos (5 * 10 ^ 9))
      else if ltb_ℤ interval (pos 0)
      then none
      else some interval

  -- A round for each tick, until the context is done, and how many of them end in a panic, after
  -- which the loop starts again.
  unfoldable pub run_ticks :
      HealthCheckConfig Float → List Tick → Table × Cache Float → (Table × Cache Float) × ℕ
  unfolding check_all_backends
  run_ticks cfg [] s = (s, 0)
  run_ticks cfg (t ∷ ts) s =
      let one = check_all_backends cfg t.pings t.order s.0 s.1 in
      let rest = run_ticks cfg ts one.state in (rest.0, if one.panicked then rest.1 + 1 else rest.1)

  -- `healthCheckLoop`; without a ticker it panics and starts again for ever, and no round runs.
  unfoldable pub health_check_loop :
      HealthCheckConfig Float → List Tick → Table × Cache Float → Table × Cache Float
  unfolding ticker_interval run_ticks
  health_check_loop cfg ticks s = elim (ticker_interval cfg) [
    | none ↦ s
    | some interval ↦ (run_ticks cfg ticks s).0
  ]
