-- ===== src/LoadBalancer/Tests/Data.antt =====
-- Two backends, a server and an environment, over numbers counted in thousandths.
use rms_gate.Base.{lookup, ℕ, true, false, none, some, List, [], ◌∷◌, pos}
use rms_gate.Float64.Fixed.{fixed}
use rms_gate.LoadBalancer.Backend.{Backend}
use rms_gate.LoadBalancer.History.Records.{IsComplete}
use rms_gate.LoadBalancer.Strategy.{Ref, sequential, Environment}
use rms_gate.LoadBalancer.Server.{ServerInfo}
use rms_gate.LoadBalancer.HealthCheck.{HealthCheckConfig, Ping}

-- Two players of at most three, and latencies of 20 and 30 ms.
abbrev pub quiet : Backend
quiet = record {
  addr = "10.0.0.1:25565";
  max_connections = pos 3;
  current_conns = 2;
  fail_count = 0;
  success_count = 0;
  healthy = true;
  disabled = false;
  latency_window = 20 ∷ 30 ∷ [];
  window_size = pos 3;
  last_check_time = pos 0;
  players = "ann" ∷ "bob" ∷ [];
  trust_coeff = 100;
}

-- No limit, five players, one failure.
abbrev pub busy : Backend
busy = record quiet {
  addr = "10.0.0.2:25565";
  max_connections = pos 0;
  current_conns = 5;
  fail_count = 1;
  players = "cid" ∷ "dan" ∷ "eve" ∷ "fay" ∷ "gus" ∷ [];
}

abbrev pub off : Backend
off = record quiet { disabled = true }

abbrev pub ill : Backend
ill = record quiet { healthy = false; trust_coeff = 70 }

abbrev pub fresh : Backend
fresh = record quiet { latency_window = []; window_size = pos 0 }

abbrev pub ref : ℕ → Backend → Ref
ref i b = record { ptr = i; target = b }

abbrev pub refs : List Ref
refs = ref 0 off ∷ ref 1 quiet ∷ ref 2 busy ∷ []

abbrev pub env : Environment fixed.Float
env = record { history = none; period = 40; draw = some 1 }

abbrev pub server : ServerInfo fixed.Float
server = record {
  name = "survival";
  backends = off ∷ quiet ∷ busy ∷ [];
  strategy = sequential;
  jitter_threshold = pos 500;
  dial_timeout = pos 5_000_000_000;
  unhealthy_after_failures = pos 3;
  default_addr = some "10.0.0.1:25565";
}

abbrev pub cfg : HealthCheckConfig fixed.Float
cfg = record {
  interval_seconds = pos 5;
  window_size = pos 20;
  unhealthy_after_failures = pos 3;
  healthy_after_successes = pos 3;
  jitter_threshold = pos 500;
  dial_timeout_seconds = pos 5;
}

abbrev pub good_ping : Ping
good_ping = record { latency = some 40_000_000; ended = pos 1_700_000_000_000; period = 40 }

pub no_history : IsComplete fixed []
no_history addr h e = unfold lookup in cc
