-- ===== src/Config.antt =====
-- internal/config/config.go: the configuration file, its defaults, and how it is loaded. JSON and
-- the disk are arguments. A pointer that JSON may leave nil is an option; numbers of float64 are
-- those of Float64.
pub mod Loading
use rms_gate.Base.{
  ℕ, String, Bool, true, false, not, Option, none, some, List, [], ◌∷◌, if◌then◌else◌, ℤ, pos,
}
use rms_gate.Float64.{Floats}

pub record BackendConfig : Type 0 where
  pub addr : String
  pub max_connections : ℤ

pub record LbServerConfig : Type 0 where
  pub strategy : String
  pub backends : List (Option BackendConfig)

pub record HealthCheckConfig (F : Type 0) : Type 0 where
  pub interval_seconds : ℤ
  pub window_size : ℤ
  pub unhealthy_after_failures : ℤ
  pub healthy_after_successes : ℤ
  pub jitter_threshold : F
  pub dial_timeout_seconds : ℤ

pub record LoadBalancerConfig (F : Type 0) : Type 0 where
  pub enabled : Bool
  pub health_check : Option (HealthCheckConfig F)
  pub servers : List (String × Option LbServerConfig)

pub record PermissionConfig : Type 0 where
  pub permission_enabled : Bool
  pub cache_ttl_seconds : ℤ
  pub admin_commands : List String
  pub msg_no_permission : String

pub record McsManagerConfig : Type 0 where
  pub base_url : String
  pub api_key : String
  pub daemon_id : String

pub record DynamicServerConfig : Type 0 where
  pub server_uuid_map : List (String × String)
  pub auto_start_servers : List String
  pub startup_timeout_seconds : ℤ
  pub poll_interval_seconds : ℤ
  pub connectivity_timeout_seconds : ℤ
  pub idle_shutdown_seconds : ℤ
  pub msg_starting : String
  pub msg_startup_timeout : String

pub record Config (F : Type 0) : Type 0 where
  pub api_url : String
  pub timeout_seconds : ℤ
  pub server_tier : ℤ
  pub msg_not_in_whitelist : String
  pub msg_server_error : String
  pub mcs_manager : Option McsManagerConfig
  pub dynamic_server : Option DynamicServerConfig
  pub permission : Option PermissionConfig
  pub load_balancer : Option (LoadBalancerConfig F)

module _ (fl : Floats) where
  abbrev pub default_health_check : HealthCheckConfig fl.Float
  default_health_check = record {
    interval_seconds = pos 5;
    window_size = pos 20;
    unhealthy_after_failures = pos 3;
    healthy_after_successes = pos 3;
    jitter_threshold = fl.decimal 5 1;
    dial_timeout_seconds = pos 5;
  }

  unfoldable pub default_config : Config fl.Float
  default_config = record {
    api_url = "http://localhost:8080/api/whitelist";
    timeout_seconds = pos 10;
    server_tier = pos 1;
    msg_not_in_whitelist = "您当前不在白名单中";
    msg_server_error = "500服务器内部错误，请联系管理员";
    mcs_manager = some (record {
      base_url = "https://mcsm.example.com/api";
      api_key = "your-api-key";
      daemon_id = "your-daemon-id";
    });
    dynamic_server = some (record {
      server_uuid_map = [];
      auto_start_servers = [];
      startup_timeout_seconds = pos 60;
      poll_interval_seconds = pos 2;
      connectivity_timeout_seconds = pos 30;
      idle_shutdown_seconds = pos 60;
      msg_starting = "正在启动服务器 %s，请稍候...";
      msg_startup_timeout = "服务器 %s 启动超时，请稍后重试";
    });
    permission = some (record {
      permission_enabled = true;
      cache_ttl_seconds = pos 300;
      admin_commands = "send" ∷ "dserver" ∷ "glist" ∷ "server" ∷ "lb" ∷ [];
      msg_no_permission = "你没有权限执行此命令";
    });
    load_balancer =
        some (record { enabled = false; health_check = some default_health_check; servers = [] });
  }

-- The disk and JSON. `write` says what the file holds after an attempt to write, and whether it
-- succeeds; `readable` whether a file that is there can be read.
pub record Disk (F : Type 0) : Type 0 where
  pub make_dir : Bool
  pub readable : Bool
  pub write : List ℕ → Option (List ℕ) × Bool
  pub encode : Config F → Option (List ℕ)
  pub decode : List ℕ → Option (Config F)

-- `saveConfig`: the file afterwards; the error is only logged.
unfoldable pub save_config : {F : Type 0} → Disk F → Option (List ℕ) → Config F → Option (List ℕ)
save_config d file cfg = elim (d.encode cfg) [ none ↦ file | some text ↦ (d.write text).0 ]

module _ (fl : Floats) where
  -- `LoadConfig`, on a file that is there or not: the configuration, and the file afterwards.
  unfoldable pub load_config : Disk fl.Float → Option (List ℕ) → Config fl.Float × Option (List ℕ)
  unfolding save_config
  load_config d none =
      if not d.make_dir
      then (default_config fl, none)
      else (default_config fl, save_config d none (default_config fl))
  load_config d (some text) =
      if not d.readable then (default_config fl, some text) else elim (d.decode text) [
        | none ↦ (default_config fl, some text)
        | some cfg ↦ (cfg, some text)
      ]
