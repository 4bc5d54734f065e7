-- ===== src/DynamicServer/Tests/Races.antt =====
-- A timer that is armed and entered, lock by lock.
use rms_gate.Base.{ℕ, ◌≡◌, refl, ◌≢◌, ◌⊎◌, some, str_eq, lookup}
use rms_gate.DynamicServer.{
  new_manager, is_auto_shutdown_enabled, schedule_check, arm_timer, enter_timer, cancel_shutdown,
}
use rms_gate.DynamicServer.Races.{Threads, entering, started, Reach, here, next, asks, arms, enters}
use rms_gate.DynamicServer.Races.Covered.{one_timer, cancel_complete}
use rms_gate.DynamicServer.Tests.{cfg}

abbrev entered : Threads
entered = record started {
  manager = enter_timer (arm_timer new_manager "lobby" "u-1") "lobby" new_manager.next_timer;
}

history : Reach cfg entered
unfolding schedule_check is_auto_shutdown_enabled new_manager lookup str_eq
history =
    next (next (next here (asks _ "lobby" "u-1" refl refl)) (arms _ "lobby" "u-1" refl))
      (enters _ "lobby" 0 refl)

abbrev first : ℕ
first = 0

one_timer_example :
    (first ≡ first)
    × ((lookup "lobby" entered.manager.shutdown_timers ≡ some 0)
        ⊎ (entered.phase ≡ entering "lobby" 0))
unfolding new_manager
one_timer_example = one_timer history 0 0 "lobby" "u-1" "u-1" refl refl

cancel_complete_example : (cancel_shutdown entered.manager "lobby").armed 0 ≢ some ("lobby", "u-1")
cancel_complete_example = cancel_complete history "lobby" "u-1" 0 (λ p. cc)
