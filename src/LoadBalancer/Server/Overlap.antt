-- ===== src/LoadBalancer/Server/Overlap.antt =====
-- internal/loadbalancer/server_info.go, and the calls of other files that change a server's backends:
-- many players at once, with the health check and the commands, in any order.
pub mod Counted
pub mod Bound
pub mod Off
use rms_gate.Base.{
  ℕ, suc, ◌+◌, ◌<◌, String, ◌≡◌, Bool, Option, none, some, ◌==◌, if◌then◌else◌, get_elem?,
}
use rms_gate.Float64.{Floats}
use rms_gate.LoadBalancer.Backend.{Backend, set_disabled}
use rms_gate.LoadBalancer.History.{Cache}
use rms_gate.LoadBalancer.Strategy.{Environment}
use rms_gate.LoadBalancer.HealthCheck.{HealthCheckConfig, Ping}
use rms_gate.LoadBalancer.HealthCheck.Rounds.{run_answer}
use rms_gate.LoadBalancer.Server.{
  ServerInfo, TrackedConn, DialResult, dial_select, dial_finish, close, store,
}

-- A server, and how many dials wait for the network at each position.
pub record Traffic (F : Type 0) : Type 0 where
  pub server : ServerInfo F
  pub pending : ℕ → ℕ

abbrev pub put : ℕ → ℕ → (ℕ → ℕ) → ℕ → ℕ
put p n f q = if q == p then n else f q

-- One call, or one half of a dial or of a check; no backend has more than `k` dials that wait.
pub data Step (fl : Floats) (k : ℕ) : Traffic fl.Float → Traffic fl.Float → Type 0 where
  refuses :
      (s : Traffic fl.Float) (env : Environment fl.Float) (server' : ServerInfo fl.Float)
      → dial_select fl s.server env ≡ some (server', none)
      → Step fl k s (record s { server = server' })
  chooses :
      (s : Traffic fl.Float) (env : Environment fl.Float) (server' : ServerInfo fl.Float) (p : ℕ)
      → dial_select fl s.server env ≡ some (server', some p)
      → s.pending p < k
      → Step fl k s (record { server = server'; pending = put p (s.pending p + 1) s.pending })
  finishes :
      (s : Traffic fl.Float) (p n : ℕ) (player : Option String) (d : DialResult)
      (server' : ServerInfo fl.Float) (c : Option TrackedConn)
      → s.pending p ≡ suc n
      → dial_finish s.server p player d ≡ some (server', c)
      → Step fl k s (record { server = server'; pending = put p n s.pending })
  closes :
      (s : Traffic fl.Float) (c : TrackedConn)
      → Step fl k s (record s { server = (close s.server c).0 })
  -- The part of a health check behind its ping; meanwhile the backend may have been switched off.
  answers :
      (s : Traffic fl.Float) (cfg : HealthCheckConfig fl.Float) (ping : Ping) (p : ℕ) (b : Backend)
      (cache : Cache fl.Float)
      → get_elem? s.server.backends p ≡ some b
      → Step fl k s
          (record s { server = store s.server p (run_answer fl cfg ping b cache).state.0 })
  switches :
      (s : Traffic fl.Float) (p : ℕ) (b : Backend) (disabled : Bool)
      → get_elem? s.server.backends p ≡ some b
      → Step fl k s (record s { server = store s.server p (set_disabled b disabled) })

-- From a server to which no dial is under way.
pub data Reach (fl : Floats) (k : ℕ) (server : ServerInfo fl.Float)
    : Traffic fl.Float → Type 0 where
  here : Reach fl k server (record { server = server; pending = λ p. 0 })
  next : {s t : Traffic fl.Float} → Reach fl k server s → Step fl k s t → Reach fl k server t
