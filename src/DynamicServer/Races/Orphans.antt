-- ===== src/DynamicServer/Races/Orphans.antt =====
-- Timers that no call can find.
use rms_gate.Base.{
  ℕ, String, ◌≡◌, none, some, arith, ℤ, str_eq_refl, lookup, insert, delete, lookup-delete,
}
use rms_gate.DynamicServer.{
  Manager, cancel_shutdown, set_shutdown_delay, arm_timer, enter_timer, release_timer, timer_fires,
}

-- A timer that is armed and not yet entered survives a protection period that is set between, and
-- stops the empty server when it fires.
entering_survives :
    (m : Manager) (name uuid : String) (now : ℤ) (seconds : ℕ)
    → lookup name m.shutdown_timers ≡ none
    → let m1 = set_shutdown_delay (arm_timer m name uuid) now name seconds in
      (timer_fires (enter_timer m1 name m.next_timer) m.next_timer (some 0)).1 ≡ some uuid
unfolding set_shutdown_delay cancel_shutdown timer_fires
entering_survives m name uuid now seconds e =
    rw (set_shutdown_delay, cancel_shutdown, e) (ground arith)

-- The function of an earlier timer that waited for the lock takes a later one out of the map, which
-- cancelling then misses.
late_release-orphans :
    (m : Manager) (name uuid : String)
    → let m1 = enter_timer (arm_timer m name uuid) name m.next_timer in
      (timer_fires (cancel_shutdown (release_timer m1 name) name) m.next_timer (some 0)).1
      ≡ some uuid
unfolding cancel_shutdown timer_fires
late_release-orphans m name uuid =
    let gone : lookup name (delete name (insert name m.next_timer m.shutdown_timers)) ≡ none =
      ground (
        arith,
        lookup-delete name name (insert name m.next_timer m.shutdown_timers),
        str_eq_refl name,
      ) in
    rw (cancel_shutdown, gone) (ground arith)
