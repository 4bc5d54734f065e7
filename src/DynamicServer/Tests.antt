-- ===== src/DynamicServer/Tests.antt =====
-- The theorems on idle servers, in one history: the check asks for the status of a server, a
-- command sets a protection period, and the answer comes in.
mod Races
mod Starts
use rms_gate.Base.{
  ℕ, ◌+◌, ◌-◌, String, ◌≡◌, refl, ◌≢◌, inl, true, none, some, [], ◌∷◌, ◌++◌, pos, mul_64, add_64,
  ◌+ℤ◌, str_eq, lookup,
}
use rms_gate.DynamicServer.{
  Config, new_manager, in_protection, config_of, is_auto_shutdown_enabled, schedule_check,
  schedule_arm, set_shutdown_delay, protection_end, is_in_protection_period, timer_fires,
}
use rms_gate.DynamicServer.Schedule.{System, Reach, asks, answered, here, next, delay_overtaken}
use rms_gate.DynamicServer.Idle.{Look, periodic_idle_check}
use rms_gate.DynamicServer.Idle.Rounds.{idle_stopped, players_keep}

abbrev pub cfg : Config
cfg = record {
  server_uuid_map = ("lobby", "u-1") ∷ [];
  auto_start_servers = "lobby" ∷ [];
  startup_timeout_seconds = pos 60;
  poll_interval_seconds = pos 2;
  connectivity_timeout_seconds = pos 30;
  idle_shutdown_seconds = pos 300;
}

-- The timer of the idle server runs.
abbrev armed_system : System
armed_system = record {
  manager = schedule_arm new_manager "lobby" "u-1" (some (pos 3));
  waiting = none;
}

history : Reach cfg armed_system
unfolding schedule_check is_auto_shutdown_enabled new_manager lookup str_eq
history = next (next here (asks _ "lobby" "u-1" refl)) (answered _ "lobby" "u-1" (some (pos 3)))

delay_overtaken_example :
    let m1 = set_shutdown_delay new_manager (pos 1000) "lobby" 60 in
    let m2 = schedule_arm m1 "lobby" "u-1" (some (pos 3)) in
    (is_in_protection_period (pos 2000) (config_of m2 "lobby") ≡ true)
    × ((timer_fires m2 m1.next_timer (some 0)).1 ≡ some "u-1")
unfolding ◌+ℤ◌ protection_end add_64 mul_64
delay_overtaken_example = delay_overtaken new_manager (pos 1000) (pos 2000) "lobby" "u-1" 60 refl

-- The server is empty, and its instance runs.
abbrev empty_look : String → Look
empty_look name = record { now = pos 1000; players = some 0; status = λ uuid. some (pos 3) }

abbrev busy_look : String → Look
busy_look name = record { now = pos 2000; players = some 2; status = λ uuid. some (pos 3) }

idle_stopped_example :
    let m' = periodic_idle_check cfg ((busy_look ∷ []) ++ (empty_look ∷ [])) new_manager in
    (t : ℕ) × (lookup "lobby" m'.shutdown_timers ≡ some t)
    × ((timer_fires m' t (some 0)).1 ≡ some "u-1")
unfolding lookup str_eq is_auto_shutdown_enabled in_protection new_manager
idle_stopped_example =
    idle_stopped cfg new_manager (busy_look ∷ []) empty_look "lobby" "u-1" here (inl refl) refl refl
      refl refl refl

players_keep_example :
    (periodic_idle_check cfg ([] ++ (busy_look ∷ [])) armed_system.manager).armed 0
    ≢ some ("lobby", "u-1")
unfolding schedule_arm in_protection new_manager lookup
players_keep_example =
    players_keep cfg armed_system.manager [] busy_look "lobby" 1 history (inl refl) refl refl 0
      "u-1"
