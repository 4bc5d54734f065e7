-- ===== src/DynamicServer/Idle.antt =====
-- `periodicIdleCheck` and its rounds, `checkAllAutoStartServersIdle`, with no other call between the
-- steps of a round.
pub mod Known
pub mod Decided
pub mod Rounds
use rms_gate.Base.{
  ℕ, String, ◌≡◌, refl, inl, inr, Option, none, some, List, [], ◌∷◌, Option-cases, ℤ,
}
use rms_gate.DynamicServer.{
  Config, Manager, IdleAction, skip, schedule, cancel, idle_action, schedule_check, schedule_arm,
  cancel_shutdown,
}
use rms_gate.DynamicServer.Schedule.{System, Reach, next, asks, answered, cancels}

-- What the check sees of a server: the clock, the number of players, if the proxy knows the server,
-- and the status that the service reports of an instance.
pub record Look : Type 0 where
  pub now : ℤ
  pub players : Option ℕ
  pub status : String → Option ℤ

-- `scheduleShutdown` as a whole.
unfoldable pub schedule_shutdown : Config → Manager → String → (String → Option ℤ) → Manager
schedule_shutdown cfg m name status = elim (schedule_check cfg m name) [
  | none ↦ m
  | some uuid ↦ schedule_arm m name uuid (status uuid)
]

unfoldable pub check_server : Config → Manager → String → Look → Manager
unfolding schedule_shutdown
check_server cfg m name look = elim (idle_action m look.now name look.players) [
  | skip ↦ m
  | schedule ↦ schedule_shutdown cfg m name look.status
  | cancel ↦ cancel_shutdown m name
]

unfoldable pub check_all_auto_start_servers_idle :
    Config → (String → Look) → List String → Manager → Manager
unfolding check_server
check_all_auto_start_servers_idle cfg look [] m = m
check_all_auto_start_servers_idle cfg look (name ∷ names) m =
    check_all_auto_start_servers_idle cfg look names (check_server cfg m name (look name))

-- `periodicIdleCheck`: a round for each tick.
unfoldable pub periodic_idle_check : Config → List (String → Look) → Manager → Manager
unfolding check_all_auto_start_servers_idle
periodic_idle_check cfg [] m = m
periodic_idle_check cfg (look ∷ rounds) m =
    periodic_idle_check cfg rounds
      (check_all_auto_start_servers_idle cfg look cfg.auto_start_servers m)

abbrev pub at_rest : Manager → System
at_rest m = record { manager = m; waiting = none }

schedule_shutdown-Reach :
    (cfg : Config) (m : Manager) (name : String) (status : String → Option ℤ)
    → Reach cfg (at_rest m)
    → Reach cfg (at_rest (schedule_shutdown cfg m name status))
unfolding schedule_shutdown
schedule_shutdown-Reach cfg m name status r = elim (Option-cases (schedule_check cfg m name)) [
  | inl e ↦ rw (e, schedule_shutdown) r
  | inr (uuid, e) ↦
      rw (e, schedule_shutdown)
        (next (next r (asks m name uuid e)) (answered m name uuid (status uuid)))
]

check_server-Reach :
    (cfg : Config) (m : Manager) (name : String) (look : Look)
    → Reach cfg (at_rest m)
    → Reach cfg (at_rest (check_server cfg m name look))
unfolding check_server
check_server-Reach cfg m name look r = go (idle_action m look.now name look.players) refl
  where
    go :
        (a : IdleAction)
        → idle_action m look.now name look.players ≡ a
        → Reach cfg (at_rest (check_server cfg m name look))
    go skip e = rw (e, check_server) r
    go schedule e = rw (e, check_server) (schedule_shutdown-Reach cfg m name look.status r)
    go cancel e = rw (e, check_server) (next r (cancels m name))

-- A round leads from a reachable state to a reachable one.
pub round-Reach :
    (cfg : Config) (look : String → Look) (names : List String) (m : Manager)
    → Reach cfg (at_rest m)
    → Reach cfg (at_rest (check_all_auto_start_servers_idle cfg look names m))
unfolding check_all_auto_start_servers_idle
round-Reach cfg look [] m r = r
round-Reach cfg look (name ∷ names) m r =
    round-Reach cfg look names _ (check_server-Reach cfg m name (look name) r)
