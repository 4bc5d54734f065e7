-- ===== src/Plugin/Setup.antt =====
-- main.go, `init` and `convertLoadBalancerConfig`. A part that is switched off is `none`; `none`
-- around a result is a panic.
pub mod Running
use rms_gate.Base.{String, not, Option, none, some, List, [], ◌∷◌, map, if◌then◌else◌, ◌>>=◌}
use rms_gate.Config.{
  Config as FileConfig, BackendConfig as FileBackend, LoadBalancerConfig, LbServerConfig,
}
use rms_gate.LoadBalancer.Registry.{
  BackendConfig, ServerConfig, Config as LbConfig, LoadBalancer, Proxy, new_load_balancer, start,
}
use rms_gate.DynamicServer.{Config as DynamicConfig}
use rms_gate.Permission.{Manager as PermissionManager, new_manager}
use rms_gate.McsManager.{Config as McsConfig, new_client}

-- A list of pointers none of which is nil; following a nil pointer panics.
unfoldable pub all_set : {A : Type 0} → List (Option A) → Option (List A)
all_set [] = some []
all_set (x ∷ xs) = x >>= λ a. all_set xs >>= λ bs. some (a ∷ bs)

unfoldable pub convert_backend : FileBackend → BackendConfig
convert_backend b = record { config_addr = b.addr; config_max_connections = b.max_connections }

unfoldable pub convert_server : LbServerConfig → Option ServerConfig
unfolding all_set convert_backend
convert_server srv = all_set srv.backends >>= λ bs.
    some (record { strategy_name = srv.strategy; backend_configs = map convert_backend bs })

-- The loop of `convertLoadBalancerConfig`, in the order in which the map is walked.
unfoldable pub convert_servers :
    List (String × Option LbServerConfig) → Option (List (String × ServerConfig))
unfolding convert_server
convert_servers [] = some []
convert_servers ((name, srv) ∷ rest) =
    srv >>= λ s. convert_server s >>= λ c. convert_servers rest >>= λ cs. some ((name, c) ∷ cs)

unfoldable pub convert_load_balancer_config :
    {F : Type 0} → LoadBalancerConfig F → Option (LbConfig F)
unfolding convert_servers
convert_load_balancer_config cfg = convert_servers cfg.servers >>= λ servers.
    cfg.health_check >>= λ hc. some (record {
      enabled = cfg.enabled;
      checks = record {
        interval_seconds = hc.interval_seconds;
        window_size = hc.window_size;
        unhealthy_after_failures = hc.unhealthy_after_failures;
        healthy_after_successes = hc.healthy_after_successes;
        jitter_threshold = hc.jitter_threshold;
        dial_timeout_seconds = hc.dial_timeout_seconds;
      };
      server_configs = servers;
    })

-- The parts of `RMSWhitelist` that `init` starts.
pub record Parts (F P : Type 0) : Type 0 where
  pub mcs_client : Option McsConfig
  pub dynamic_server : Option DynamicConfig
  pub permission_manager : Option PermissionManager
  pub load_balancer : Option (LoadBalancer F P)

-- The parts of `init`, each by its section of the file.
module _ {F : Type 0} where
  unfoldable pub init_dynamic : FileConfig F → Option McsConfig × Option DynamicConfig
  init_dynamic cfg = elim cfg.mcs_manager [
    | none ↦ (none, none)
    | some m ↦ elim cfg.dynamic_server [
      | none ↦ (none, none)
      | some d ↦ (
        some (
            new_client
              (record { base_url = m.base_url; api_key = m.api_key; daemon_id = m.daemon_id })),
        some (record {
          server_uuid_map = d.server_uuid_map;
          auto_start_servers = d.auto_start_servers;
          startup_timeout_seconds = d.startup_timeout_seconds;
          poll_interval_seconds = d.poll_interval_seconds;
          connectivity_timeout_seconds = d.connectivity_timeout_seconds;
          idle_shutdown_seconds = d.idle_shutdown_seconds;
        }),
      )
    ]
  ]

  unfoldable pub init_permission : FileConfig F → Option PermissionManager
  init_permission cfg = elim cfg.permission [
    | none ↦ none
    | some p ↦
        if p.permission_enabled
        then some (new_manager p.cache_ttl_seconds p.admin_commands)
        else none
  ]

module _ {F P : Type 0} where
  -- `none` inside is a load balancer that is off, outside a panic.
  unfoldable pub init_load_balancer :
      (String → Option String) → Proxy P → P → FileConfig F → Option (Option (LoadBalancer F P))
  unfolding convert_load_balancer_config
  init_load_balancer resolve px proxy cfg = elim cfg.load_balancer [
    | none ↦ some none
    | some section ↦
        if not section.enabled
        then some none
        else (convert_load_balancer_config section >>= λ lb.
            start resolve px lb (new_load_balancer proxy lb) >>= λ running. some (some running))
  ]

  -- `init` without the subscriptions of the handlers and the commands, which keep no state here.
  unfoldable pub init : (String → Option String) → Proxy P → P → FileConfig F → Option (Parts F P)
  unfolding init_dynamic init_permission init_load_balancer
  init resolve px proxy cfg =
      let (client, dynamic) = init_dynamic cfg in
      init_load_balancer resolve px proxy cfg >>= λ lb. some (record {
        mcs_client = client;
        dynamic_server = dynamic;
        permission_manager = init_permission cfg;
        load_balancer = lb;
      })
