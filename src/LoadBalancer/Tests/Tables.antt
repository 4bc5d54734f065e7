-- ===== src/LoadBalancer/Tests/Tables.antt =====
-- The table of servers.
use rms_gate.Base.{
  ℕ, String, ◌≡◌, refl, ◌≢◌, true, false, none, some, List, [], ◌∷◌, ltb, if◌then◌else◌, length,
  pos, str_eq, lookup, contains, remove_name,
}
use rms_gate.Float64.Fixed.{fixed}
use rms_gate.LoadBalancer.Backend.{set_disabled}
use rms_gate.LoadBalancer.Strategy.{Environment}
use rms_gate.LoadBalancer.Server.{ServerInfo, dial_select}
use rms_gate.LoadBalancer.Registry.{ServerConfig, Proxy, LoadBalancer, get_server, disable_backend}
use rms_gate.LoadBalancer.Registry.Switches.{disable_backend-dial}
use rms_gate.LoadBalancer.Server.Overlap.{Traffic}
use rms_gate.LoadBalancer.Server.Overlap.Off.{Run}
use rms_gate.LoadBalancer.Tests.Data.{quiet, busy, off, server, cfg}

-- A proxy is the list of the names that it knows, and takes up to three.
abbrev px : Proxy (List String)
px = record {
  knows = λ p name. contains name p;
  unregister = λ p name. remove_name name p;
  register = λ p name. if ltb (length p) 3 then some (name ∷ p) else none;
}

abbrev balancer : LoadBalancer fixed.Float (List String)
balancer = record {
  health_check = cfg;
  servers = ("survival", server) ∷ [];
  proxy = "survival" ∷ [];
}

abbrev two_backends : ServerConfig
two_backends = record {
  strategy_name = "least-connections";
  backend_configs =
      record { config_addr = "10.0.0.7:25565"; config_max_connections = pos 2 }
      ∷ record { config_addr = "10.0.0.8:25565"; config_max_connections = pos 0 }
      ∷ [];
}

disable_backend-dial_example :
    let (lb', found) = disable_backend balancer "survival" "10.0.0.2:25565" in
    (found ≡ true)
    × (s' : ServerInfo fixed.Float) × (get_server lb' "survival" ≡ some s')
    × (s'.backends ≡ off ∷ quiet ∷ set_disabled busy true ∷ [])
    × ((k : ℕ) (pending : ℕ → ℕ) (t : Traffic fixed.Float) (env : Environment fixed.Float)
          (s1 : ServerInfo fixed.Float)
        → Run fixed k 2 (record { server = s'; pending = pending }) t
        → dial_select fixed t.server env ≢ some (s1, some 2))
    × ((other : String)
        → str_eq "survival" other ≡ false
        → get_server lb' other ≡ get_server balancer other)
unfolding get_server lookup str_eq
disable_backend-dial_example =
    disable_backend-dial fixed balancer "survival" "10.0.0.2:25565" server (off ∷ quiet ∷ []) []
      busy refl (record { split = refl; others = (refl, (refl, tt)); named = refl })
