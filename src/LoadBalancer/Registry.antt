-- ===== src/LoadBalancer/Registry.antt =====
-- internal/loadbalancer/loadbalancer.go: the table of servers. The proxy's own registry is an
-- argument; `none` is a panic.
pub mod Switches
pub mod Registered
pub mod Startup
use rms_gate.Base.{
  mul_64, ℕ, String, Bool, true, false, not, Option, none, some, List, [], ◌∷◌, map, if◌then◌else◌,
  ◌>>=◌, ℤ, pos, ◌==ℤ◌, str_eq, lookup, insert,
}
use rms_gate.Float64.{Floats}
use rms_gate.LoadBalancer.Backend.{Backend, new_backend, set_disabled}
use rms_gate.LoadBalancer.Backend.Metrics.{avg_latency, jitter}
use rms_gate.LoadBalancer.Strategy.{get_strategy}
use rms_gate.LoadBalancer.Server.{ServerInfo, new_server_info}
use rms_gate.LoadBalancer.HealthCheck.{HealthCheckConfig}

pub record BackendConfig : Type 0 where
  pub config_addr : String
  pub config_max_connections : ℤ

pub record ServerConfig : Type 0 where
  pub strategy_name : String
  pub backend_configs : List BackendConfig

-- The proxy: whether it knows a server, and what `Unregister` and `Register` do to it; `none` is
-- the error of `Register`.
pub record Proxy (P : Type 0) : Type 0 where
  pub knows : P → String → Bool
  pub unregister : P → String → P
  pub register : P → String → Option P

pub record LoadBalancer (F P : Type 0) : Type 0 where
  pub health_check : HealthCheckConfig F
  pub servers : List (String × ServerInfo F)
  pub proxy : P

-- `time.Duration(n) * time.Second`, which wraps around.
abbrev pub seconds : ℤ → ℤ
seconds n = mul_64 n 1_000_000_000

-- The loop of `registerServer` over the configured backends.
unfoldable pub new_backends : ℤ → List BackendConfig → Option (List Backend)
new_backends window_size [] = some []
new_backends window_size (c ∷ cs) =
    new_backend c.config_addr c.config_max_connections window_size >>= λ b.
    new_backends window_size cs >>= λ bs. some (b ∷ bs)

-- The server that `registerServer` builds; a timeout of 0 is 5 s.
abbrev pub server_of :
    {F : Type 0}
    → (String → Option String)
    → HealthCheckConfig F
    → String
    → ServerConfig
    → List Backend
    → ServerInfo F
server_of resolve hc name cfg backends =
    let timeout = seconds hc.dial_timeout_seconds in
    let dial_timeout = if timeout ==ℤ pos 0 then pos 5_000_000_000 else timeout in
    new_server_info resolve name backends (get_strategy cfg.strategy_name) hc.jitter_threshold
      dial_timeout hc.unhealthy_after_failures

module _ {F P : Type 0} where
  -- What is left when `Register` answers: on an error the table is as before.
  abbrev pub entered :
      LoadBalancer F P → String → ServerInfo F → P → Option P → LoadBalancer F P × Bool
  entered lb name info p1 none = (record lb { proxy = p1 }, false)
  entered lb name info p1 (some p2) =
      (record lb { proxy = p2; servers = insert name info lb.servers }, true)

  unfoldable pub register_server :
      (String → Option String)
      → Proxy P
      → LoadBalancer F P
      → String
      → ServerConfig
      → Option (LoadBalancer F P × Bool)
  register_server resolve px lb name cfg =
      new_backends lb.health_check.window_size cfg.backend_configs >>= λ backends.
      let info = server_of resolve lb.health_check name cfg backends in
      let p1 = if px.knows lb.proxy name then px.unregister lb.proxy name else lb.proxy in
      some (entered lb name info p1 (px.register p1 name))

  unfoldable pub get_server : LoadBalancer F P → String → Option (ServerInfo F)
  get_server lb name = lookup name lb.servers

pub record Config (F : Type 0) : Type 0 where
  pub enabled : Bool
  pub checks : HealthCheckConfig F
  pub server_configs : List (String × ServerConfig)

unfoldable pub new_load_balancer : {F P : Type 0} → P → Config F → LoadBalancer F P
new_load_balancer proxy cfg = record { health_check = cfg.checks; servers = []; proxy = proxy }

module _ {F P : Type 0} where
  -- The loop of `Start`, in the order in which the map is walked; a server that is refused is
  -- passed over.
  unfoldable pub start_servers :
      (String → Option String)
      → Proxy P
      → LoadBalancer F P
      → List (String × ServerConfig)
      → Option (LoadBalancer F P)
  unfolding register_server
  start_servers resolve px lb [] = some lb
  start_servers resolve px lb ((name, cfg) ∷ rest) =
      register_server resolve px lb name cfg >>= λ r. start_servers resolve px r.0 rest

  -- `Start`; the health check that it sets off is `check_all_backends`, at each tick.
  unfoldable pub start :
      (String → Option String) → Proxy P → Config F → LoadBalancer F P → Option (LoadBalancer F P)
  unfolding start_servers
  start resolve px cfg lb =
      if not cfg.enabled then some lb else start_servers resolve px lb cfg.server_configs

  -- `GetAllServers`: a copy of the table.
  unfoldable pub get_all_servers : LoadBalancer F P → List (String × ServerInfo F)
  get_all_servers lb = lb.servers

-- The loop of `DisableBackend` and `EnableBackend`: the first backend with the address.
unfoldable pub switch_first : Bool → String → List Backend → Option (List Backend)
switch_first disabled addr [] = none
switch_first disabled addr (b ∷ bs) =
    let rest = switch_first disabled addr bs in
    if str_eq b.addr addr
    then some (set_disabled b disabled ∷ bs)
    else rest >>= λ bs'. some (b ∷ bs')

module _ {F P : Type 0} where
  -- `DisableBackend` and `EnableBackend`, which differ in the value that they set.
  unfoldable pub switch_backend :
      Bool → LoadBalancer F P → String → String → LoadBalancer F P × Bool
  unfolding switch_first
  switch_backend disabled lb name addr = elim (lookup name lb.servers) [
    | none ↦ (lb, false)
    | some s ↦ elim (switch_first disabled addr s.backends) [
      | none ↦ (lb, false)
      | some bs ↦
          (record lb { servers = insert name (record s { backends = bs }) lb.servers }, true)
    ]
  ]

  unfoldable pub disable_backend : LoadBalancer F P → String → String → LoadBalancer F P × Bool
  unfolding switch_backend
  disable_backend lb name addr = switch_backend true lb name addr

  unfoldable pub enable_backend : LoadBalancer F P → String → String → LoadBalancer F P × Bool
  unfolding switch_backend
  enable_backend lb name addr = switch_backend false lb name addr

pub record BackendStats (F : Type 0) : Type 0 where
  pub stats_addr : String
  pub stats_current_conns : ℕ
  pub stats_max_connections : ℤ
  pub stats_avg_latency : F
  pub stats_jitter : F
  pub stats_fail_count : ℕ
  pub stats_healthy : Bool
  pub stats_disabled : Bool
  pub stats_players : List String

module _ (fl : Floats) where
  unfoldable pub stats : Backend → BackendStats fl.Float
  stats b = record {
    stats_addr = b.addr;
    stats_current_conns = b.current_conns;
    stats_max_connections = b.max_connections;
    stats_avg_latency = avg_latency fl b;
    stats_jitter = jitter fl b;
    stats_fail_count = b.fail_count;
    stats_healthy = b.healthy;
    stats_disabled = b.disabled;
    stats_players = b.players;
  }

  unfoldable pub get_server_stats :
      {P : Type 0} → LoadBalancer fl.Float P → String → List (BackendStats fl.Float)
  get_server_stats lb name = elim (lookup name lb.servers) [
    | none ↦ []
    | some s ↦ map stats s.backends
  ]
