-- ===== src/Plugin/Commands.antt =====
-- main.go, the handlers of `/dserver` and `/lb`. The messages that a handler sends are a list; their
-- colours are left out, and a text is a constructor with what it prints.
pub mod Typed
pub mod Shown
use rms_gate.Base.{
  ℕ, ◌+◌, ◌^◌, String, Bool, true, false, not, ◌||◌, Option, none, some, List, [], ◌∷◌, map,
  if◌then◌else◌, length, ℤ, pos, negsuc, mul_64, ◌+ℤ◌, str_eq, codes, text_eq,
}
use rms_gate.Float64.{Floats}
use rms_gate.LoadBalancer.Backend.{Backend, is_available}
use rms_gate.LoadBalancer.Backend.Metrics.{avg_latency, jitter, relative_health_score}
use rms_gate.LoadBalancer.History.{Cache, historical_score}
use rms_gate.LoadBalancer.Strategy.{name, lower}
use rms_gate.LoadBalancer.Server.{ServerInfo}
use rms_gate.LoadBalancer.Registry.{
  LoadBalancer, BackendStats, get_server, get_all_servers, get_server_stats, disable_backend,
  enable_backend,
}
use rms_gate.DynamicServer.{
  Config, Manager, is_auto_start_server, set_shutdown_delay, clear_protection_period,
  set_auto_shutdown_enabled,
}
use rms_gate.Plugin.Durations.{parse_time_string, format_duration}

pub data Message : Type 0 where
  not_enabled : Message
  not_managed : String → Message
  period_cleared : String → Message
  invalid_time : List ℕ → Message
  time_usage : Message
  period_set : String → List ℕ → Message
  period_ends : ℤ → Message
  invalid_toggle : String → Message
  shutdown_toggled : Bool → String → Message
  no_servers no_such_server servers_header : Message
  server_line : String → ℕ → ℕ → String → Message
  server_header : String → String → Message
  no_such_backend : String → String → Message
  backend_switched : Bool → String → String → Message

-- `cmdDelay`; `now` is the clock in milliseconds, `instant` in nanoseconds, and `none` stands for a
-- plugin without the dynamic servers. The end that is shown is a time, which does not wrap around,
-- while the duration that is added to it does.
unfoldable pub cmd_delay :
    Config → ℤ → ℤ → Option Manager → String → List ℕ → Option Manager × List Message
cmd_delay cfg now instant none server time = (none, not_enabled ∷ [])
cmd_delay cfg now instant (some m) server time =
    if not (is_auto_start_server cfg server)
    then (some m, not_managed server ∷ [])
    else if text_eq time (codes "off")
    then (some (clear_protection_period m server), period_cleared server ∷ [])
    else elim (parse_time_string time) [
      | none ↦ (some m, invalid_time time ∷ time_usage ∷ [])
      | some (negsuc n) ↦ (some m, invalid_time time ∷ time_usage ∷ [])
      | some (pos n) ↦ (
        some (set_shutdown_delay m now server n),
        period_set server (format_duration (pos n))
            ∷ period_ends (instant +ℤ mul_64 (pos n) (10 ^ 9))
            ∷ [],
      )
    ]

-- What `switch toggle` reads.
unfoldable pub toggle_value : String → Option Bool
toggle_value t =
    if str_eq t "on" || str_eq t "true"
    then some true
    else if str_eq t "off" || str_eq t "false"
    then some false
    else none

unfoldable pub cmd_auto_shutdown :
    Config → Option Manager → String → String → Option Manager × List Message
cmd_auto_shutdown cfg none server toggle = (none, not_enabled ∷ [])
cmd_auto_shutdown cfg (some m) server toggle =
    if not (is_auto_start_server cfg server)
    then (some m, not_managed server ∷ [])
    else elim (toggle_value toggle) [
      | none ↦ (some m, invalid_toggle toggle ∷ [])
      | some enabled ↦
          (some (set_auto_shutdown_enabled m server enabled), shutdown_toggled enabled server ∷ [])
    ]

-- `availableCount` after the loop.
unfoldable pub available_count : List Backend → ℕ
available_count [] = 0
available_count (b ∷ bs) = if is_available b then available_count bs + 1 else available_count bs

abbrev server_lines : {F : Type 0} → List (String × ServerInfo F) → List Message
server_lines servers =
    map
      (λ (entry : String × ServerInfo _).
        server_line entry.0 (available_count entry.1.backends) (length entry.1.backends)
          (name entry.1.strategy))
      servers

module _ {F P : Type 0} where
  -- `cmdLBStatusAll`; the servers come in an order that is not fixed.
  unfoldable pub cmd_lb_status_all : Option (LoadBalancer F P) → List Message
  unfolding available_count
  cmd_lb_status_all none = not_enabled ∷ []
  cmd_lb_status_all (some lb) = elim (get_all_servers lb) [
    | [] ↦ no_servers ∷ []
    | s ∷ rest ↦ servers_header ∷ server_lines (s ∷ rest)
  ]

  -- `cmdLBDisable` and `cmdLBEnable`.
  unfoldable pub cmd_lb_disable :
      Option (LoadBalancer F P) → String → String → Option (LoadBalancer F P) × List Message
  cmd_lb_disable none server backend = (none, not_enabled ∷ [])
  cmd_lb_disable (some lb) server backend =
      let (lb', found) = disable_backend lb server backend in
      (
        some lb',
        if found
            then backend_switched true server backend ∷ []
            else no_such_backend server backend ∷ [],
      )

  unfoldable pub cmd_lb_enable :
      Option (LoadBalancer F P) → String → String → Option (LoadBalancer F P) × List Message
  cmd_lb_enable none server backend = (none, not_enabled ∷ [])
  cmd_lb_enable (some lb) server backend =
      let (lb', found) = enable_backend lb server backend in
      (
        some lb',
        if found
            then backend_switched false server backend ∷ []
            else no_such_backend server backend ∷ [],
      )

-- The text beside the address.
pub data Condition : Type 0 where
  ok unhealthy is_disabled : Condition

-- The lines on one backend.
pub record Report (F : Type 0) : Type 0 where
  pub about : BackendStats F
  pub condition : Condition
  pub score : ℤ
  pub hist_score : ℤ

module _ (fl : Floats) where
  open fl use {Float, of_int, flt, fle}

  -- The loop that looks for the least positive value among the available backends.
  unfoldable pub least_shown : (Backend → Float) → Float → List Backend → Float
  least_shown f m [] = m
  least_shown f m (b ∷ bs) =
      if not (is_available b) then least_shown f m bs else least_shown f (lower fl m (f b)) bs

  unfoldable pub shown_minimum : (Backend → Float) → List Backend → Float
  unfolding least_shown
  shown_minimum f backends =
      let m = least_shown f (of_int (negsuc 0)) backends in
      if fle m (of_int (pos 0)) then of_int (pos 1) else m

  -- The two scores of the first backend with the address.
  unfoldable pub shown_scores :
      Option (Cache Float) → ℕ → Float → Float → String → List Backend → ℤ × ℤ
  shown_scores history period min_latency min_jitter addr [] = (pos 0, pos 0)
  shown_scores history period min_latency min_jitter addr (b ∷ bs) =
      let rest = shown_scores history period min_latency min_jitter addr bs in
      let score = relative_health_score fl b min_latency min_jitter in
      if str_eq b.addr addr
      then elim history [
        | none ↦ (score, pos 0)
        | some cache ↦
            let hist = historical_score fl cache b.addr period (avg_latency fl b) (jitter fl b) in
            (score +ℤ hist, hist)
      ]
      else rest

  unfoldable pub report :
      Option (Cache Float) → ℕ → List Backend → BackendStats Float → Report Float
  unfolding shown_minimum shown_scores
  report history period backends stat =
      let scores =
        shown_scores history period (shown_minimum (avg_latency fl) backends)
          (shown_minimum (jitter fl) backends) stat.stats_addr backends in
      record {
        about = stat;
        condition =
            if stat.stats_disabled
            then is_disabled
            else if not stat.stats_healthy
            then unhealthy
            else ok;
        score = scores.0;
        hist_score = scores.1;
      }

  -- `cmdLBStatus`: the first message, and the lines on the backends.
  unfoldable pub cmd_lb_status :
      {P : Type 0}
      → Option (Cache Float)
      → ℕ
      → Option (LoadBalancer Float P)
      → String
      → Message × List (Report Float)
  unfolding report
  cmd_lb_status history period none server = (not_enabled, [])
  cmd_lb_status history period (some lb) server = elim (get_server lb server) [
    | none ↦ (no_such_server, [])
    | some s ↦ (
      server_header server (name s.strategy),
      map (report history period s.backends) (get_server_stats fl lb server),
    )
  ]
