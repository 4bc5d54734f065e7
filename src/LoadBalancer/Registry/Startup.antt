-- ===== src/LoadBalancer/Registry/Startup.antt =====
-- The table after the start.
use rms_gate.Base.{
  String, ◌≡◌, refl, ap, ◌∙◌, true, false, Option, some, List, [], ◌∷◌, arith, if◌then◌else◌, All,
  pos, ◌≤ℤ◌, str_eq, insert, lookup-insert, lookup-insert_self,
}
use rms_gate.LoadBalancer.Server.{ServerInfo, new_server_info}
use rms_gate.LoadBalancer.Strategy.{get_strategy}
use rms_gate.LoadBalancer.Registry.{
  ServerConfig, Proxy, LoadBalancer, Config, new_load_balancer, register_server, start_servers,
  start, get_server, server_of, entered,
}
use rms_gate.LoadBalancer.Registry.Registered.{Fits, Ready, new_backends-Ready}

-- A server that is in the table as it is configured.
abbrev pub Serves : {F P : Type 0} → LoadBalancer F P → String → ServerConfig → Type 0
Serves {F} lb name cfg =
    (info : ServerInfo F) × (get_server lb name ≡ some info)
    × (info.strategy ≡ get_strategy cfg.strategy_name)
    × Ready cfg.backend_configs info.backends

-- A proxy that takes every server.
abbrev pub Takes : {P : Type 0} → Proxy P → Type 0
Takes {P} px = (p : P) (name : String) → (p' : P) × (px.register p name ≡ some p')

-- The keys of a map are distinct.
abbrev pub Absent : {V : Type 0} → String → List (String × V) → Type 0
Absent name = All (λ e. str_eq e.0 name ≡ false)

abbrev pub Distinct : {V : Type 0} → List (String × V) → Type 0
Distinct [] = Unit
Distinct ((name, v) ∷ rest) = Absent name rest × Distinct rest

registered :
    {F P : Type 0} (resolve : String → Option String) (px : Proxy P) (lb : LoadBalancer F P)
    (name : String) (cfg : ServerConfig)
    → Takes px
    → All Fits cfg.backend_configs
    → pos 0 ≤ℤ lb.health_check.window_size
    → (lb' : LoadBalancer F P) × (register_server resolve px lb name cfg ≡ some (lb', true))
      × (lb'.health_check ≡ lb.health_check)
      × Serves lb' name cfg
      × ((other : String) → str_eq name other ≡ false → get_server lb' other ≡ get_server lb other)
unfolding register_server get_server new_server_info
registered resolve px lb name cfg takes fits h =
    let (bs, e, r) = new_backends-Ready lb.health_check.window_size cfg.backend_configs fits h in
    let info = server_of resolve lb.health_check name cfg bs in
    let p1 = if px.knows lb.proxy name then px.unregister lb.proxy name else lb.proxy in
    let (p2, taken) = takes p1 name in
    let lb' = record lb { proxy = p2; servers = insert name info lb.servers } in
    let done = ap (λ answer. some (entered lb name info p1 answer)) taken in
    (
      lb',
      rw (e, register_server) done,
      refl,
      (info, lookup-insert_self name info lb.servers, refl, r),
      λ other ne. ground (arith, lookup-insert name other info lb.servers, ne),
    )

module _ {F P : Type 0} (resolve : String → Option String) (px : Proxy P) where
  started :
      (lb : LoadBalancer F P) (entries : List (String × ServerConfig))
      → Takes px
      → Distinct entries
      → All (λ e. All Fits e.1.backend_configs) entries
      → pos 0 ≤ℤ lb.health_check.window_size
      → (lb' : LoadBalancer F P) × (start_servers resolve px lb entries ≡ some lb')
        × All (λ e. Serves lb' e.0 e.1) entries
        × ((other : String) → Absent other entries → get_server lb' other ≡ get_server lb other)
  unfolding start_servers
  started lb [] takes d fits h = (lb, refl, tt, λ other a. refl)
  started lb ((name, cfg) ∷ rest) takes (absent, d) (fit, fits) h =
      let (lb1, e, kept, mine, others) = registered resolve px lb name cfg takes fit h in
      let (lb2, q, all, old) = started lb1 rest takes d fits (rw kept h) in
      let (info, there, strategy, ready) = mine in
      (
        lb2,
        rw e q,
        ((info, old name absent ∙ there, strategy, ready), all),
        λ other a. old other a.1 ∙ others other a.0,
      )

  -- With distinct names, limits that fit int32, a window size that is not negative and a proxy that
  -- takes every server, `Start` of an enabled load balancer ends, and every configured server is
  -- then in the table, with its strategy, its addresses and limits, and every backend available.
  pub start-Serves :
      (proxy : P) (cfg : Config F)
      → Takes px
      → cfg.enabled ≡ true
      → Distinct cfg.server_configs
      → All (λ e. All Fits e.1.backend_configs) cfg.server_configs
      → pos 0 ≤ℤ cfg.checks.window_size
      → (lb' : LoadBalancer F P) × (start resolve px cfg (new_load_balancer proxy cfg) ≡ some lb')
        × All (λ e. Serves lb' e.0 e.1) cfg.server_configs
  unfolding start new_load_balancer
  start-Serves proxy cfg takes on d fits h =
      let (lb', e, all, _) =
        started (new_load_balancer proxy cfg) cfg.server_configs takes d fits h in
      (lb', rw (on, start) e, all)
