-- ===== src/Plugin/Setup/Running.antt =====
-- What runs after the start.
use rms_gate.Base.{
  String, ◌≡◌, refl, ap, ◌∙◌, inl, inr, true, Option, none, some, List, [], ◌∷◌, map, Option-cases,
  All, pos, ◌≤ℤ◌,
}
use rms_gate.Config.{
  BackendConfig as FileBackend, LbServerConfig, LoadBalancerConfig, HealthCheckConfig as FileChecks,
  Config as FileConfig,
}
use rms_gate.LoadBalancer.Registry.{
  ServerConfig, Config as LbConfig, Proxy, LoadBalancer, new_load_balancer, start, get_server,
}
use rms_gate.LoadBalancer.Registry.Registered.{Fits}
use rms_gate.LoadBalancer.Registry.Startup.{Serves, Takes, Distinct, Absent, start-Serves}
use rms_gate.LoadBalancer.Backend.{is_available}
use rms_gate.LoadBalancer.Server.{ServerInfo}
use rms_gate.LoadBalancer.Strategy.{get_strategy}
use rms_gate.Plugin.Setup.{
  all_set, convert_backend, convert_server, convert_servers, convert_load_balancer_config,
  init_load_balancer,
}

-- A server of the file without nil pointers, whose limits int32 holds.
abbrev pub Sound : String × Option LbServerConfig → Type 0
Sound (name, srv) =
    (s : LbServerConfig) × (bs : List FileBackend) × (srv ≡ some s)
    × (all_set s.backends ≡ some bs)
    × All (λ b. b.max_connections ≤ℤ pos 0x7fff_ffff) bs

-- The table has a server of the file as it is written there, ready to be chosen.
abbrev pub Shows : {F P : Type 0} → LoadBalancer F P → String × Option LbServerConfig → Type 0
Shows {F} lb (name, srv) =
    (s : LbServerConfig) × (bs : List FileBackend) × (info : ServerInfo F) × (srv ≡ some s)
    × (all_set s.backends ≡ some bs)
    × (get_server lb name ≡ some info)
    × (info.strategy ≡ get_strategy s.strategy)
    × (map (λ b. b.addr) info.backends ≡ map (λ b. b.addr) bs)
    × (map (λ b. b.max_connections) info.backends ≡ map (λ b. b.max_connections) bs)
    × All (λ b. is_available b ≡ true) info.backends

addrs-convert :
    (bs : List FileBackend)
    → map (λ c. c.config_addr) (map convert_backend bs) ≡ map (λ b. b.addr) bs
unfolding convert_backend
addrs-convert [] = refl
addrs-convert (b ∷ bs) = ap (◌∷◌ b.addr) (addrs-convert bs)

limits-convert :
    (bs : List FileBackend)
    → map (λ c. c.config_max_connections) (map convert_backend bs) ≡ map (λ b. b.max_connections) bs
unfolding convert_backend
limits-convert [] = refl
limits-convert (b ∷ bs) = ap (◌∷◌ b.max_connections) (limits-convert bs)

Fits-convert :
    (bs : List FileBackend)
    → All (λ b. b.max_connections ≤ℤ pos 0x7fff_ffff) bs
    → All Fits (map convert_backend bs)
unfolding convert_backend
Fits-convert [] h = tt
Fits-convert (b ∷ bs) (hb, h) = (hb, Fits-convert bs h)

converted :
    (F P : Type 0) (servers : List (String × Option LbServerConfig))
    → Distinct servers
    → All Sound servers
    → (cs : List (String × ServerConfig)) × (convert_servers servers ≡ some cs)
      × Distinct cs
      × All (λ e. All Fits e.1.backend_configs) cs
      × ((name : String) → Absent name servers → Absent name cs)
      × ((lb : LoadBalancer F P) → All (λ e. Serves lb e.0 e.1) cs → All (Shows lb) servers)
unfolding convert_servers convert_server
converted F P [] d h = ([], refl, tt, tt, (λ name a. tt), λ lb a. tt)
converted F P ((name, srv) ∷ rest) (absent, d) ((s, bs, e, q, fit), h) =
    let (cs, r, distinct, fits, names, shows) = converted F P rest d h in
    let c : ServerConfig = record {
      strategy_name = s.strategy;
      backend_configs = map convert_backend bs;
    } in
    (
      (name, c) ∷ cs,
      rw (e, convert_servers) (rw (q, convert_servers) (rw (r, convert_servers) refl)),
      (names name absent, distinct),
      (Fits-convert bs fit, fits),
      (λ n a. (a.0, names n a.1)),
      λ lb a.
          let ((info, there, strategy, ready), more) = a in
          (
            (
              s,
              bs,
              info,
              e,
              q,
              there,
              strategy,
              ready.addrs ∙ addrs-convert bs,
              ready.limits ∙ limits-convert bs,
              ready.available,
            ),
            shows lb more,
          ),
    )

abbrev config_of :
    {F : Type 0} → LoadBalancerConfig F → FileChecks F → List (String × ServerConfig) → LbConfig F
config_of section hc cs = record {
  enabled = section.enabled;
  checks = record {
    interval_seconds = hc.interval_seconds;
    window_size = hc.window_size;
    unhealthy_after_failures = hc.unhealthy_after_failures;
    healthy_after_successes = hc.healthy_after_successes;
    jitter_threshold = hc.jitter_threshold;
    dial_timeout_seconds = hc.dial_timeout_seconds;
  };
  server_configs = cs;
}

convert-some :
    {F : Type 0} (section : LoadBalancerConfig F) (hc : FileChecks F)
    (cs : List (String × ServerConfig))
    → convert_servers section.servers ≡ some cs
    → section.health_check ≡ some hc
    → convert_load_balancer_config section ≡ some (config_of section hc cs)
unfolding convert_load_balancer_config
convert-some section hc cs r checks =
    rw (r, convert_load_balancer_config) (rw (checks, convert_load_balancer_config) refl)

init-some :
    {F P : Type 0} (resolve : String → Option String) (px : Proxy P) (proxy : P)
    (cfg : FileConfig F) (section : LoadBalancerConfig F) (lb : LbConfig F)
    (running : LoadBalancer F P)
    → cfg.load_balancer ≡ some section
    → section.enabled ≡ true
    → convert_load_balancer_config section ≡ some lb
    → start resolve px lb (new_load_balancer proxy lb) ≡ some running
    → init_load_balancer resolve px proxy cfg ≡ some (some running)
unfolding init_load_balancer
init-some resolve px proxy cfg section lb running e on c q =
    rw (e, init_load_balancer) (rw c (rw q (rw on refl)))

-- From the file to the table: an enabled section with a health check and a window size that is not
-- negative, distinct names, no nil pointers and limits that fit int32 starts without a panic, and
-- with a proxy that takes every server each server of the file is in the table, with its strategy,
-- addresses and limits, every backend available.
pub init_load_balancer-Shows :
    {F P : Type 0} (resolve : String → Option String) (px : Proxy P) (proxy : P)
    (cfg : FileConfig F) (section : LoadBalancerConfig F) (hc : FileChecks F)
    → Takes px
    → cfg.load_balancer ≡ some section
    → section.enabled ≡ true
    → section.health_check ≡ some hc
    → pos 0 ≤ℤ hc.window_size
    → Distinct section.servers
    → All Sound section.servers
    → (lb : LoadBalancer F P) × (init_load_balancer resolve px proxy cfg ≡ some (some lb))
      × All (Shows lb) section.servers
init_load_balancer-Shows resolve px proxy cfg section hc takes e on checks size d h =
    let (cs, r, distinct, fits, _, shows) = converted _ _ section.servers d h in
    let lb = config_of section hc cs in
    let (running, started, all) = start-Serves resolve px proxy lb takes on distinct fits size in
    let done =
      init-some resolve px proxy cfg section lb running e on (convert-some section hc cs r checks)
        started in
    (running, done, shows running all)

-- An enabled section without a health check panics.
init_load_balancer-panics :
    {F P : Type 0} (resolve : String → Option String) (px : Proxy P) (proxy : P)
    (cfg : FileConfig F) (section : LoadBalancerConfig F)
    → cfg.load_balancer ≡ some section
    → section.enabled ≡ true
    → section.health_check ≡ none
    → init_load_balancer resolve px proxy cfg ≡ none
unfolding init_load_balancer convert_load_balancer_config
init_load_balancer-panics resolve px proxy cfg section e on missing =
    elim (Option-cases (convert_servers section.servers)) [
      | inl bad ↦ rw (e, on, bad, init_load_balancer) refl
      | inr (cs, good) ↦ rw (e, on, good, missing, init_load_balancer) refl
    ]
