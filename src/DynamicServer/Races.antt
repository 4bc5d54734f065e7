-- ===== src/DynamicServer/Races.antt =====
-- The idle check, cancelling and firing timers lock by lock: other calls run between arming a timer
-- and entering it in the map, between the two locks of SetShutdownDelay and of
-- SetAutoShutdownEnabled, and while the function of a timer that has fired waits for the lock.
pub mod Invariant
pub mod Arming
pub mod Covered
pub mod Orphans
use rms_gate.Base.{ℕ, String, ◌≡◌, ◌⊎◌, Option, none, some, List, ◌==◌, if◌then◌else◌, lookup}
use rms_gate.DynamicServer.{
  Config, Manager, ShutdownConfig, new_manager, disarm, cancel_shutdown, schedule_check, arm_timer,
  enter_timer, release_timer,
}

-- Where the goroutine of the idle check stands in `scheduleShutdown`.
pub data Phase : Type 0 where
  idle : Phase
  asked : String → String → Phase
  entering : String → ℕ → Phase

-- The manager, the idle check, and the timers that have fired and wait for the lock.
pub record Threads : Type 0 where
  pub manager : Manager
  pub phase : Phase
  pub late : ℕ → Option (String × String)

abbrev pub started : Threads
started = record { manager = new_manager; phase = idle; late = λ t. none }

pub data Step (cfg : Config) : Threads → Threads → Type 0 where
  asks :
      (s : Threads) (name uuid : String)
      → s.phase ≡ idle
      → schedule_check cfg s.manager name ≡ some uuid
      → Step cfg s (record s { phase = asked name uuid })
  gives_up :
      (s : Threads) (name uuid : String)
      → s.phase ≡ asked name uuid
      → Step cfg s (record s { phase = idle })
  arms :
      (s : Threads) (name uuid : String)
      → s.phase ≡ asked name uuid
      → Step cfg s (record s {
        manager = arm_timer s.manager name uuid;
        phase = entering name s.manager.next_timer;
      })
  enters :
      (s : Threads) (name : String) (t : ℕ)
      → s.phase ≡ entering name t
      → Step cfg s (record s { manager = enter_timer s.manager name t; phase = idle })
  cancels :
      (s : Threads) (name : String)
      → Step cfg s (record s { manager = cancel_shutdown s.manager name })
  configures :
      (s : Threads) (configs : List (String × ShutdownConfig))
      → Step cfg s (record s { manager = record s.manager { server_configs = configs } })
  starts :
      (s : Threads) (t : ℕ) (name uuid : String)
      → s.manager.armed t ≡ some (name, uuid)
      → Step cfg s (record {
        manager = record s.manager { armed = disarm t s.manager.armed };
        phase = s.phase;
        late = λ i. if i == t then some (name, uuid) else s.late i;
      })
  -- The function gets the lock, before the map has a later timer of its server.
  releases :
      (s : Threads) (t : ℕ) (name uuid : String)
      → s.late t ≡ some (name, uuid)
      → (lookup name s.manager.shutdown_timers ≡ none)
        ⊎ (lookup name s.manager.shutdown_timers ≡ some t)
      → Step cfg s (record s {
        manager = release_timer s.manager name;
        late = λ i. if i == t then none else s.late i;
      })

pub data Reach (cfg : Config) : Threads → Type 0 where
  here : Reach cfg started
  next : {s t : Threads} → Reach cfg s → Step cfg s t → Reach cfg t
