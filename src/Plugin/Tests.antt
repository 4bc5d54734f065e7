-- ===== src/Plugin/Tests.antt =====
-- A configuration with one load-balanced server, services that answer, and what players type.
use rms_gate.Base.{
  ◌*◌, ◌≤◌, ◌<◌, ◌⊎◌, ◌%◌, ◌≢◌, ℕ, String, ◌≡◌, refl, ◌↔◌, true, none, some, List, [], ◌∷◌, arith,
  ◌==◌, if◌then◌else◌, length, All, pos, contains, remove_name, codes,
}
use rms_gate.Float64.Fixed.{fixed}
use rms_gate.Config.{
  Config as FileConfig, LbServerConfig, LoadBalancerConfig, default_config, default_health_check,
}
use rms_gate.LoadBalancer.Registry.{Proxy, LoadBalancer}
use rms_gate.Whitelist.{Service}
use rms_gate.DynamicServer.{Config as DynamicConfig}
use rms_gate.Plugin.Setup.{all_set, init_load_balancer}
use rms_gate.Plugin.Setup.Running.{Shows, init_load_balancer-Shows}
use rms_gate.Plugin.Durations.{parse_time_string, decimal, format_duration}
use rms_gate.Plugin.Durations.RoundTrip.{TimeUnit, hours, format-parse}
use rms_gate.Plugin.Handlers.{on_login}
use rms_gate.Plugin.Handlers.Admission.{Replies, on_login_iff}
mod Commands
mod Connections

abbrev px : Proxy (List String)
px = record {
  knows = λ p name. contains name p;
  unregister = λ p name. remove_name name p;
  register = λ p name. some (name ∷ p);
}

abbrev lobby : LbServerConfig
lobby = record {
  strategy = "round-robin";
  backends =
      some (record { addr = "10.0.0.7:25565"; max_connections = pos 2 })
      ∷ some (record { addr = "10.0.0.8:25565"; max_connections = pos 0 })
      ∷ [];
}

abbrev section : LoadBalancerConfig fixed.Float
section = record {
  enabled = true;
  health_check = some (default_health_check fixed);
  servers = ("lobby", some lobby) ∷ [];
}

abbrev file : FileConfig fixed.Float
file = record (default_config fixed) { load_balancer = some section }

init_load_balancer-Shows_example :
    (lb : LoadBalancer fixed.Float (List String)) × (init_load_balancer
        (λ a. some a)
        px
        ("lobby" ∷ [])
        file
      ≡ some (some lb))
    × All (Shows lb) section.servers
unfolding all_set
init_load_balancer-Shows_example =
    init_load_balancer-Shows (λ a. some a) px ("lobby" ∷ []) file section
      (default_health_check fixed) (λ p name. (name ∷ p, refl)) refl refl refl (omega arith)
      (tt, tt) ((lobby, _, refl, refl, (omega arith, (omega arith, tt))), tt)

abbrev broken : FileConfig fixed.Float
broken = record file { load_balancer = some (record section { health_check = none }) }

format-parse_example :
    (n c k : ℕ) × (word : List ℕ) × TimeUnit c k word
    × (n * k ≡ 5400)
    × (format_duration (pos 5400) ≡ decimal (pos n) word)
    × (parse_time_string (decimal (pos n) (c ∷ [])) ≡ some (pos 5400))
    × ((3600 ≤ k) ⊎ (5400 < 3600) ⊎ (5400 % 3600 ≢ 0))
format-parse_example = format-parse 5400 (omega arith) hours

-- A whitelist service that takes every request of some length.
abbrev whitelist : Service (List ℕ)
whitelist = record {
  encode = λ r. some (codes r.username);
  new_request = λ address body. some body;
  do_request = λ req timeout. if length req == 0 then none else some 200;
}

on_login_iff_example :
    (on_login whitelist file "steve" "0-1" ≡ none)
    ↔ Replies whitelist
        (codes file.api_url)
        file.timeout_seconds
        (record { username = "steve"; uuid = "0-1"; server_tier = file.server_tier })
        200
on_login_iff_example = on_login_iff whitelist file "steve" "0-1"

abbrev dynamic : DynamicConfig
dynamic = record {
  server_uuid_map = ("creative", "u-1") ∷ [];
  auto_start_servers = "creative" ∷ [];
  startup_timeout_seconds = pos 300;
  poll_interval_seconds = pos 5;
  connectivity_timeout_seconds = pos 30;
  idle_shutdown_seconds = pos 60;
}
