-- ===== src/DynamicServer/Schedule.antt =====
-- The idle check, commands and timers in any order, each call a step that no other call interrupts but
-- where the status of an instance is awaited; Races has the same lock by lock.
use rms_gate.Base.{
  ℕ, String, ◌≡◌, refl, ap, ◌∙◌, ◌≢◌, inl, inr, Bool, true, false, Option, none, some, arith,
  Option-cases, ℤ, pos, ltb_ℤ, lookup, insert, lookup-insert_self, lookup-delete,
}
use rms_gate.DynamicServer.{
  Config, Manager, ShutdownConfig, new_manager, cancel_shutdown, config_of, is_in_protection_period,
  set_shutdown_delay, protection_end, clear_protection_period, set_auto_shutdown_enabled,
  schedule_check, schedule_arm, timer_fires,
}
use rms_gate.DynamicServer.Timers.{
  NoOrphan, configs-NoOrphan, new_manager-NoOrphan, cancel_shutdown-NoOrphan, schedule_arm-NoOrphan,
  clear-NoOrphan, delay-NoOrphan, toggle-NoOrphan, fire-NoOrphan,
}

-- The manager with the server whose status the idle check is waiting for.
pub record System : Type 0 where
  pub manager : Manager
  pub waiting : Option (String × String)

-- One call. The idle check is one goroutine: it asks for a status, and goes on when it is answered;
-- between, commands and timers run. The answer, the clock and the players are anything.
pub data Step (cfg : Config) : System → System → Type 0 where
  asks :
      (m : Manager) (name uuid : String)
      → schedule_check cfg m name ≡ some uuid
      → Step cfg
          (record { manager = m; waiting = none })
          (record { manager = m; waiting = some (name, uuid) })
  answered :
      (m : Manager) (name uuid : String) (status : Option ℤ)
      → Step cfg
          (record { manager = m; waiting = some (name, uuid) })
          (record { manager = schedule_arm m name uuid status; waiting = none })
  cancels :
      (m : Manager) (name : String)
      → Step cfg
          (record { manager = m; waiting = none })
          (record { manager = cancel_shutdown m name; waiting = none })
  delays :
      (s : System) (now : ℤ) (name : String) (seconds : ℕ)
      → Step cfg s (record s { manager = set_shutdown_delay s.manager now name seconds })
  clears :
      (s : System) (name : String)
      → Step cfg s (record s { manager = clear_protection_period s.manager name })
  toggles :
      (s : System) (name : String) (enabled : Bool)
      → Step cfg s (record s { manager = set_auto_shutdown_enabled s.manager name enabled })
  fires :
      (s : System) (t : ℕ) (players : Option ℕ)
      → Step cfg s (record s { manager = (timer_fires s.manager t players).0 })

pub data Reach (cfg : Config) : System → Type 0 where
  here : Reach cfg (record { manager = new_manager; waiting = none })
  next : {s t : System} → Reach cfg s → Step cfg s t → Reach cfg t

-- No timer is lost, and the server that is waited for has none.
pub record Inv (s : System) : Type 0 where
  pub no_orphan : NoOrphan s.manager
  pub no_second :
      (name uuid : String)
      → s.waiting ≡ some (name, uuid)
      → lookup name s.manager.shutdown_timers ≡ none

-- Calls that start no timer.
abbrev Shrinks : Manager → Manager → Type 0
Shrinks m m' = (n : String) → lookup n m.shutdown_timers ≡ none → lookup n m'.shutdown_timers ≡ none

cancel-Shrinks : (m : Manager) (name : String) → Shrinks m (cancel_shutdown m name)
unfolding cancel_shutdown
cancel-Shrinks m name n h = elim (Option-cases (lookup name m.shutdown_timers)) [
  | inl e ↦ rw (e, cancel_shutdown) h
  | inr (t, e) ↦ rw (e, cancel_shutdown) (ground (arith, lookup-delete name n m.shutdown_timers))
]

clear-Shrinks : (m : Manager) (name : String) → Shrinks m (clear_protection_period m name)
unfolding clear_protection_period
clear-Shrinks m name n h = ground arith

delay-Shrinks :
    (m : Manager) (now : ℤ) (name : String) (seconds : ℕ)
    → Shrinks m (set_shutdown_delay m now name seconds)
unfolding set_shutdown_delay
delay-Shrinks m now name seconds n h = cancel-Shrinks _ name n h

toggle-Shrinks :
    (m : Manager) (name : String) (enabled : Bool)
    → Shrinks m (set_auto_shutdown_enabled m name enabled)
unfolding set_auto_shutdown_enabled
toggle-Shrinks m name true n h = h
toggle-Shrinks m name false n h = clear-Shrinks _ name n (cancel-Shrinks _ name n h)

fire-Shrinks : (m : Manager) (t : ℕ) (players : Option ℕ) → Shrinks m (timer_fires m t players).0
unfolding timer_fires
fire-Shrinks m t players n h = elim (Option-cases (m.armed t)) [
  | inl e ↦ rw (e, timer_fires) h
  | inr ((name, uuid), e) ↦
      rw (e, timer_fires) (ground (arith, lookup-delete name n m.shutdown_timers))
]

schedule_check-none :
    (cfg : Config) (m : Manager) (name uuid : String)
    → schedule_check cfg m name ≡ some uuid
    → lookup name m.shutdown_timers ≡ none
unfolding schedule_check
schedule_check-none cfg m name uuid h = ground arith

Step-Inv : {cfg : Config} {s t : System} → Step cfg s t → Inv s → Inv t
Step-Inv (asks m name uuid h) v = record {
  no_orphan = v.no_orphan;
  no_second = λ n u e. ground (arith, schedule_check-none _ m name uuid h);
}
Step-Inv (answered m name uuid status) v = record {
  no_orphan = schedule_arm-NoOrphan m name uuid status v.no_orphan (v.no_second name uuid refl);
  no_second = λ n u e. cc;
}
Step-Inv (cancels m name) v = record {
  no_orphan = cancel_shutdown-NoOrphan m name v.no_orphan;
  no_second = λ n u e. cc;
}
Step-Inv (delays s now name seconds) v = record {
  no_orphan = delay-NoOrphan s.manager now name seconds v.no_orphan;
  no_second = λ n u e. delay-Shrinks s.manager now name seconds n (v.no_second n u e);
}
Step-Inv (clears s name) v = record {
  no_orphan = clear-NoOrphan s.manager name v.no_orphan;
  no_second = λ n u e. clear-Shrinks s.manager name n (v.no_second n u e);
}
Step-Inv (toggles s name enabled) v = record {
  no_orphan = toggle-NoOrphan s.manager name enabled v.no_orphan;
  no_second = λ n u e. toggle-Shrinks s.manager name enabled n (v.no_second n u e);
}
Step-Inv (fires s t players) v = record {
  no_orphan = fire-NoOrphan s.manager t players v.no_orphan;
  no_second = λ n u e. fire-Shrinks s.manager t players n (v.no_second n u e);
}

-- In every history of such steps the timers that can fire are those of the map, one for a server at most, and a
-- server whose status is awaited has none.
pub Reach-Inv : {cfg : Config} {s : System} → Reach cfg s → Inv s
Reach-Inv here = record { no_orphan = new_manager-NoOrphan; no_second = λ n u e. cc }
Reach-Inv (next r st) = Step-Inv st (Reach-Inv r)

cancelled :
    (m : Manager) (name u : String) (t : ℕ)
    → NoOrphan m
    → (cancel_shutdown m name).armed t ≢ some (name, u)
unfolding cancel_shutdown
cancelled m name u t v = elim (Option-cases (lookup name m.shutdown_timers)) [
  | inl e ↦ rw (e, cancel_shutdown) (λ a. cc (v.found t name u a, e))
  | inr (i, e) ↦ rw (e, cancel_shutdown) (λ a. ground (arith, v.found t name u, e))
]

-- In every history of such steps a protection period that is set leaves no timer of its server.
delay_cancels :
    {cfg : Config} {s : System}
    → Reach cfg s
    → (now : ℤ) (name uuid : String) (seconds t : ℕ)
    → (set_shutdown_delay s.manager now name seconds).armed t ≢ some (name, uuid)
unfolding set_shutdown_delay
delay_cancels r now name uuid seconds t =
    cancelled _ name uuid t (configs-NoOrphan _ _ (Reach-Inv r).no_orphan)

cancel-configs :
    (m : Manager) (name : String) → (cancel_shutdown m name).server_configs ≡ m.server_configs
unfolding cancel_shutdown
cancel-configs m name = elim (Option-cases (lookup name m.shutdown_timers)) [
  | inl e ↦ rw (e, cancel_shutdown) refl
  | inr (t, e) ↦ rw (e, cancel_shutdown) refl
]

-- The configuration that a new protection period leaves.
abbrev protected_until : ℤ → Manager → String → ShutdownConfig
protected_until end m name = record (config_of m name) { protection_end_time = end }

pub delay-lookup :
    (m : Manager) (now : ℤ) (name : String) (seconds : ℕ)
    → lookup name (set_shutdown_delay m now name seconds).server_configs
      ≡ some (protected_until (protection_end now seconds) m name)
unfolding set_shutdown_delay
delay-lookup m now name seconds =
    let c : ShutdownConfig = protected_until (protection_end now seconds) m name in
    let m1 : Manager = record m { server_configs = insert name c m.server_configs } in
    ap (lookup name) (cancel-configs m1 name) ∙ lookup-insert_self name c m.server_configs

still_protected :
    (m : Manager) (now : ℤ) (name : String) (c : ShutdownConfig)
    → lookup name m.server_configs ≡ some c
    → ltb_ℤ now c.protection_end_time ≡ true
    → is_in_protection_period now (config_of m name) ≡ true
unfolding is_in_protection_period
still_protected m now name c e h = rw (e, config_of) h

armed_fires :
    (m : Manager) (name uuid : String)
    → (timer_fires (schedule_arm m name uuid (some (pos 3))) m.next_timer (some 0)).1 ≡ some uuid
unfolding schedule_arm timer_fires
armed_fires m name uuid = ground arith

-- But a status that is awaited when the period is set still arms one: if the answer is "running",
-- the timer stops the idle server while the period lasts.
pub delay_overtaken :
    (m : Manager) (now now' : ℤ) (name uuid : String) (seconds : ℕ)
    → ltb_ℤ now' (protection_end now seconds) ≡ true
    → let m1 = set_shutdown_delay m now name seconds in
      let m2 = schedule_arm m1 name uuid (some (pos 3)) in
      (is_in_protection_period now' (config_of m2 name) ≡ true)
      × ((timer_fires m2 m1.next_timer (some 0)).1 ≡ some uuid)
unfolding schedule_arm
delay_overtaken m now now' name uuid seconds h =
    let m2 : Manager =
      schedule_arm (set_shutdown_delay m now name seconds) name uuid (some (pos 3)) in
    (
      still_protected m2 now' name _ (delay-lookup m now name seconds) h,
      armed_fires (set_shutdown_delay m now name seconds) name uuid,
    )
