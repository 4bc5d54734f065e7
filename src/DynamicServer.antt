-- ===== src/DynamicServer.antt =====
-- internal/dynamicserver/manager.go: starting servers on demand and stopping idle ones. The clock,
-- the status service and the proxy are arguments. Maps keyed by server names are association
-- lists; a timer of the runtime is a number, `armed` holds those that have not fired.
pub mod Timers
pub mod Schedule
pub mod Races
pub mod Idle
pub mod Startup
pub mod Starting
mod Tests
use rms_gate.Base.{
  ℕ, ◌+◌, String, Bool, true, false, not, Option, none, some, List, [], ◌∷◌, ltb, ◌==◌,
  if◌then◌else◌, ℤ, pos, mul_64, add_64, ltb_ℤ, ◌==ℤ◌, lookup, insert, delete, contains,
}

pub record Config : Type 0 where
  pub server_uuid_map : List (String × String)
  pub auto_start_servers : List String
  pub startup_timeout_seconds : ℤ
  pub poll_interval_seconds : ℤ
  pub connectivity_timeout_seconds : ℤ
  pub idle_shutdown_seconds : ℤ

pub record ShutdownConfig : Type 0 where
  pub protection_end_time : ℤ
  pub enabled : Bool

unfoldable pub new_shutdown_config : Bool → ShutdownConfig
new_shutdown_config enabled = record { protection_end_time = pos 0; enabled = enabled }

unfoldable pub is_in_protection_period : ℤ → ShutdownConfig → Bool
is_in_protection_period now c = ltb_ℤ now c.protection_end_time

pub record Manager : Type 0 where
  pub shutdown_timers : List (String × ℕ)
  pub server_configs : List (String × ShutdownConfig)
  pub armed : ℕ → Option (String × String)
  pub next_timer : ℕ

unfoldable pub new_manager : Manager
new_manager = record {
  shutdown_timers = [];
  server_configs = [];
  armed = λ _. none;
  next_timer = 0;
}

unfoldable pub is_auto_start_server : Config → String → Bool
is_auto_start_server cfg name = contains name cfg.auto_start_servers

unfoldable pub is_auto_shutdown_enabled : Manager → String → Bool
is_auto_shutdown_enabled m name = elim (lookup name m.server_configs) [
  | none ↦ true
  | some c ↦ c.enabled
]

-- `timer.Stop()`
abbrev pub disarm : ℕ → (ℕ → Option (String × String)) → ℕ → Option (String × String)
disarm t armed i = if i == t then none else armed i

unfoldable pub cancel_shutdown : Manager → String → Manager
cancel_shutdown m name = elim (lookup name m.shutdown_timers) [
  | none ↦ m
  | some t ↦ record m { shutdown_timers = delete name m.shutdown_timers; armed = disarm t m.armed }
]

-- The configuration of a server, a new one where there is none yet.
abbrev config_of : Manager → String → ShutdownConfig
config_of m name = elim (lookup name m.server_configs) [
  | none ↦ record { protection_end_time = pos 0; enabled = true }
  | some c ↦ c
]

-- `time.Now().UnixMilli() + int64(delaySeconds)*1000`, for a delay that is not negative.
unfoldable pub protection_end : ℤ → ℕ → ℤ
protection_end now delay_seconds = add_64 now (mul_64 (pos delay_seconds) 1000)

unfoldable pub set_shutdown_delay : Manager → ℤ → String → ℕ → Manager
unfolding cancel_shutdown
set_shutdown_delay m now name delay_seconds =
    let c = record (config_of m name) { protection_end_time = protection_end now delay_seconds } in
    cancel_shutdown (record m { server_configs = insert name c m.server_configs }) name

unfoldable pub clear_protection_period : Manager → String → Manager
clear_protection_period m name = elim (lookup name m.server_configs) [
  | none ↦ m
  | some c ↦ record m {
    server_configs = insert name (record c { protection_end_time = pos 0 }) m.server_configs;
  }
]

unfoldable pub set_auto_shutdown_enabled : Manager → String → Bool → Manager
unfolding cancel_shutdown clear_protection_period
set_auto_shutdown_enabled m name enabled =
    let c = record (config_of m name) { enabled = enabled } in
    let m1 = record m { server_configs = insert name c m.server_configs } in
    if enabled then m1 else clear_protection_period (cancel_shutdown m1 name) name

-- `scheduleShutdown` up to the question for the instance's status: the instance to ask for, or
-- `none` for a return.
unfoldable pub schedule_check : Config → Manager → String → Option String
unfolding is_auto_shutdown_enabled
schedule_check cfg m name =
    if not (is_auto_shutdown_enabled m name) then none else elim (lookup name cfg.server_uuid_map) [
      | none ↦ none
      | some uuid ↦ elim (lookup name m.shutdown_timers) [ none ↦ some uuid | some t ↦ none ]
    ]

-- `time.AfterFunc`: from here on the timer may fire.
abbrev pub arm_timer : Manager → String → String → Manager
arm_timer m name uuid = record m {
  armed = λ i. if i == m.next_timer then some (name, uuid) else m.armed i;
  next_timer = m.next_timer + 1;
}

-- `m.shutdownTimers[serverName] = timer`, which takes the lock anew.
abbrev pub enter_timer : Manager → String → ℕ → Manager
enter_timer m name t = record m { shutdown_timers = insert name t m.shutdown_timers }

-- The rest, with the answer, where no other call comes between the two: an error is `none`, and 3 is
-- a running instance.
unfoldable pub schedule_arm : Manager → String → String → Option ℤ → Manager
schedule_arm m name uuid none = m
schedule_arm m name uuid (some status) =
    if status ==ℤ pos 3 then enter_timer (arm_timer m name uuid) name m.next_timer else m

-- The part of a timer's function that takes the lock.
abbrev pub release_timer : Manager → String → Manager
release_timer m name = record m { shutdown_timers = delete name m.shutdown_timers }

-- The part behind it; the result names the instance that is told to stop.
abbrev pub stop_if_empty : Option ℕ → String → Option String
stop_if_empty players uuid = elim players [
  | none ↦ none
  | some n ↦ if ltb 0 n then none else some uuid
]

-- The function of a timer that fires, where no other call comes between its parts; `players` is
-- `none` for a server that the proxy does not know.
unfoldable pub timer_fires : Manager → ℕ → Option ℕ → Manager × Option String
timer_fires m t players = elim (m.armed t) [
  | none ↦ (m, none)
  | some (name, uuid) ↦
      (release_timer (record m { armed = disarm t m.armed }) name, stop_if_empty players uuid)
]

-- `cfg != nil && cfg.IsInProtectionPeriod()`
unfoldable pub in_protection : Manager → ℤ → String → Bool
unfolding is_in_protection_period
in_protection m now name = elim (lookup name m.server_configs) [
  | none ↦ false
  | some c ↦ is_in_protection_period now c
]

-- What `checkAllAutoStartServersIdle` does about one server.
pub data IdleAction : Type 0 where
  skip schedule cancel : IdleAction

unfoldable pub idle_action : Manager → ℤ → String → Option ℕ → IdleAction
unfolding in_protection
idle_action m now name players =
    if in_protection m now name
    then skip
    else elim players [ none ↦ skip | some n ↦ if n == 0 then schedule else cancel ]

-- `Shutdown` stops every timer that the map knows.
unfoldable pub stop_all :
    List (String × ℕ) → (ℕ → Option (String × String)) → ℕ → Option (String × String)
stop_all [] armed = armed
stop_all ((n, t) ∷ ts) armed = stop_all ts (disarm t armed)

unfoldable pub shutdown : Manager → Manager
unfolding stop_all
shutdown m = record m { shutdown_timers = []; armed = stop_all m.shutdown_timers m.armed }
