-- ===== src/LoadBalancer/Registry/Registered.antt =====
-- What the registration of a server leaves.
use rms_gate.Base.{
  String, ◌≡◌, refl, Bool, true, false, Option, none, some, List, [], ◌∷◌, map, arith,
  if◌then◌else◌, All, ℤ, pos, ◌≤ℤ◌, str_eq, lookup-insert, lookup-insert_self,
}
use rms_gate.LoadBalancer.Backend.{Backend, fresh_backend, new_backend, is_available}
use rms_gate.LoadBalancer.Server.{ServerInfo, new_server_info}
use rms_gate.LoadBalancer.Strategy.{get_strategy}
use rms_gate.LoadBalancer.Registry.{
  BackendConfig, ServerConfig, Proxy, LoadBalancer, new_backends, server_of, entered,
  register_server, get_server,
}

-- A limit that int32 holds.
abbrev pub Fits : BackendConfig → Type 0
Fits c = c.config_max_connections ≤ℤ pos 0x7fff_ffff

-- The backends as configured, each of them available.
pub record Ready (cs : List BackendConfig) (bs : List Backend) : Type 0 where
  pub addrs : map (λ b. b.addr) bs ≡ map (λ c. c.config_addr) cs
  pub limits : map (λ b. b.max_connections) bs ≡ map (λ c. c.config_max_connections) cs
  pub available : All (λ b. is_available b ≡ true) bs

new_backend-available :
    (c : BackendConfig) (size : ℤ)
    → Fits c
    → pos 0 ≤ℤ size
    → (b : Backend) × (new_backend c.config_addr c.config_max_connections size ≡ some b)
      × (b.addr ≡ c.config_addr)
      × (b.max_connections ≡ c.config_max_connections)
      × (is_available b ≡ true)
unfolding new_backend is_available
new_backend-available c size fits h = (
  fresh_backend c.config_addr c.config_max_connections size,
  ground arith,
  refl,
  refl,
  ground arith,
)

pub new_backends-Ready :
    (size : ℤ) (cs : List BackendConfig)
    → All Fits cs
    → pos 0 ≤ℤ size
    → (bs : List Backend) × (new_backends size cs ≡ some bs) × Ready cs bs
unfolding new_backends
new_backends-Ready size [] fits h =
    ([], refl, record { addrs = refl; limits = refl; available = tt })
new_backends-Ready size (c ∷ cs) (fit, fits) h =
    let (b, e, q, l, a) = new_backend-available c size fit h in
    let (bs, es, r) = new_backends-Ready size cs fits h in
    (
      b ∷ bs,
      ground (arith, e, es),
      record {
        addrs = ground (arith, q, r.addrs);
        limits = ground (arith, l, r.limits);
        available = (a, r.available);
      },
    )

-- What a table has of a server, against what it had before.
abbrev pub Enters :
    {F P : Type 0} → LoadBalancer F P → String → ServerInfo F → LoadBalancer F P × Bool → Type 0
Enters lb name info (lb', ok) =
    (ok ≡ true → get_server lb' name ≡ some info)
    × (ok ≡ false → lb'.servers ≡ lb.servers)
    × ((other : String) → str_eq name other ≡ false → get_server lb' other ≡ get_server lb other)

entered-Enters :
    {F P : Type 0} (lb : LoadBalancer F P) (name : String) (info : ServerInfo F) (p1 : P)
    (answer : Option P)
    → Enters lb name info (entered lb name info p1 answer)
unfolding get_server
entered-Enters lb name info p1 none = ((λ e. cc), (λ e. refl), λ other ne. refl)
entered-Enters lb name info p1 (some p2) = (
  (λ e. lookup-insert_self name info lb.servers),
  (λ e. cc),
  λ other ne. ground (arith, lookup-insert name other info lb.servers, ne),
)

-- Registering a server with limits that fit int32 and a window size that is not negative ends.
-- Where the proxy takes the server, it is in the table with the configured addresses and limits,
-- every backend available; where it does not, the table is as before. No other server changes.
register_server_lem :
    {F P : Type 0} (resolve : String → Option String) (px : Proxy P) (lb : LoadBalancer F P)
    (name : String) (cfg : ServerConfig)
    → All Fits cfg.backend_configs
    → pos 0 ≤ℤ lb.health_check.window_size
    → (lb' : LoadBalancer F P) × (ok : Bool) × (register_server resolve px lb name cfg
        ≡ some (lb', ok))
      × (info : ServerInfo F) × (info.strategy ≡ get_strategy cfg.strategy_name)
      × Ready cfg.backend_configs info.backends
      × Enters lb name info (lb', ok)
unfolding register_server get_server new_server_info
register_server_lem resolve px lb name cfg fits h =
    let (bs, e, r) = new_backends-Ready lb.health_check.window_size cfg.backend_configs fits h in
    let info = server_of resolve lb.health_check name cfg bs in
    let p1 = if px.knows lb.proxy name then px.unregister lb.proxy name else lb.proxy in
    let (lb', ok) = entered lb name info p1 (px.register p1 name) in
    (
      lb',
      ok,
      rw (e, register_server) refl,
      info,
      refl,
      r,
      entered-Enters lb name info p1 (px.register p1 name),
    )
