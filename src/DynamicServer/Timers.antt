-- ===== src/DynamicServer/Timers.antt =====
-- The map of timers and the timers that can fire, call by call.
use rms_gate.Base.{
  ℕ, ◌≤◌, String, ◌≡◌, refl, inl, inr, Bool, true, false, Option, none, some, List, arith, ◌==◌,
  if◌then◌else◌, Bool-cases, Option-cases, ℤ, pos, ◌==ℤ◌, str_eq, str_eq_iff, str_eq_refl, lookup,
  insert, delete, lookup-insert, lookup-delete,
}
use rms_gate.DynamicServer.{
  Manager, ShutdownConfig, new_manager, cancel_shutdown, disarm, set_shutdown_delay,
  clear_protection_period, set_auto_shutdown_enabled, schedule_arm, timer_fires,
}

-- The map and the armed timers are the same: no timer is lost, so each can be cancelled.
pub record NoOrphan (m : Manager) : Type 0 where
  pub known :
      (n : String) (t : ℕ)
      → lookup n m.shutdown_timers ≡ some t
      → (u : String) × (m.armed t ≡ some (n, u))
  pub found : (t : ℕ) (n u : String) → m.armed t ≡ some (n, u) → lookup n m.shutdown_timers ≡ some t
  pub unused : (t : ℕ) → m.next_timer ≤ t → m.armed t ≡ none

pub new_manager-NoOrphan : NoOrphan new_manager
unfolding new_manager lookup
new_manager-NoOrphan = record { known = λ n t e. cc; found = λ t n u e. cc; unused = λ t e. refl }

-- A timer that goes from the map and from the armed ones at once.
forget-NoOrphan :
    (m : Manager) (name uuid : String) (t : ℕ)
    → NoOrphan m
    → m.armed t ≡ some (name, uuid)
    → NoOrphan
        (record m { shutdown_timers = delete name m.shutdown_timers; armed = disarm t m.armed })
forget-NoOrphan m name uuid t v e = record {
  known = λ n i h.
      let before : lookup n m.shutdown_timers ≡ some i =
        ground (arith, lookup-delete name n m.shutdown_timers) in
      let (u, a) = v.known n i before in
      (u, ground (arith, lookup-delete name n m.shutdown_timers, str_eq_iff name n, a, e));
  found = λ i n u h.
      let a : m.armed i ≡ some (n, u) = ground arith in
      let mine = v.found i n u a in
      let own = v.found t name uuid e in
      ground (arith, lookup-delete name n m.shutdown_timers, str_eq_iff name n, mine, own);
  unused = λ i h. ground (arith, v.unused i h);
}

pub cancel_shutdown-NoOrphan :
    (m : Manager) (name : String) → NoOrphan m → NoOrphan (cancel_shutdown m name)
unfolding cancel_shutdown
cancel_shutdown-NoOrphan m name v = elim (Option-cases (lookup name m.shutdown_timers)) [
  | inl e ↦ rw (e, cancel_shutdown) v
  | inr (t, e) ↦
      let (uuid, a) = v.known name t e in
      rw (e, cancel_shutdown) (forget-NoOrphan m name uuid t v a)
]

pub cancelled_timer :
    (m : Manager) (server : String)
    → lookup server (cancel_shutdown m server).shutdown_timers ≡ none
unfolding cancel_shutdown
cancelled_timer m server =
    ground (arith, lookup-delete server server m.shutdown_timers, str_eq_refl server)

-- An instance is armed for a server that has no timer in the map.
pub schedule_arm-NoOrphan :
    (m : Manager) (name uuid : String) (status : Option ℤ)
    → NoOrphan m
    → lookup name m.shutdown_timers ≡ none
    → NoOrphan (schedule_arm m name uuid status)
unfolding schedule_arm
schedule_arm-NoOrphan m name uuid none v e = v
schedule_arm-NoOrphan m name uuid (some status) v e = elim (Bool-cases (status ==ℤ pos 3)) [
  | inr idle ↦ rw (idle, schedule_arm) v
  | inl running ↦
      rw (running, schedule_arm)
        (record {
          known = λ n t h. armed_known n t h;
          found = λ t n u h. armed_found t n u h;
          unused = λ t h. ground (arith, v.unused t);
        })
]
  where
    armed_known :
        (n : String) (t : ℕ)
        → lookup n (insert name m.next_timer m.shutdown_timers) ≡ some t
        → (u : String) × ((if t == m.next_timer then some (name, uuid) else m.armed t)
            ≡ some (n, u))
    armed_known n t h = elim (Bool-cases (str_eq name n)) [
      | inl q ↦ (
        uuid,
        ground (arith, lookup-insert name n m.next_timer m.shutdown_timers, str_eq_iff name n),
      )
      | inr q ↦
          let old : lookup n m.shutdown_timers ≡ some t =
            ground (arith, lookup-insert name n m.next_timer m.shutdown_timers) in
          let (u, a) = v.known n t old in
          (u, ground (arith, a, v.unused m.next_timer (omega arith)))
    ]

    armed_found :
        (t : ℕ) (n u : String)
        → (if t == m.next_timer then some (name, uuid) else m.armed t) ≡ some (n, u)
        → lookup n (insert name m.next_timer m.shutdown_timers) ≡ some t
    armed_found t n u h = elim (Bool-cases (t == m.next_timer)) [
      | inl q ↦
          ground (arith, lookup-insert name n m.next_timer m.shutdown_timers, str_eq_iff name n)
      | inr q ↦
          let a : m.armed t ≡ some (n, u) = ground arith in
          let mine = v.found t n u a in
          ground
            (arith, lookup-insert name n m.next_timer m.shutdown_timers, str_eq_iff name n, mine)
    ]

-- The configurations of the servers play no part in it.
pub configs-NoOrphan :
    (m : Manager) (c : List (String × ShutdownConfig))
    → NoOrphan m
    → NoOrphan (record m { server_configs = c })
configs-NoOrphan m c v = record { known = v.known; found = v.found; unused = v.unused }

pub clear-NoOrphan :
    (m : Manager) (name : String) → NoOrphan m → NoOrphan (clear_protection_period m name)
unfolding clear_protection_period
clear-NoOrphan m name v = elim (Option-cases (lookup name m.server_configs)) [
  | inl e ↦ rw (e, clear_protection_period) v
  | inr (c, e) ↦ rw (e, clear_protection_period) (configs-NoOrphan m _ v)
]

pub delay-NoOrphan :
    (m : Manager) (now : ℤ) (name : String) (seconds : ℕ)
    → NoOrphan m
    → NoOrphan (set_shutdown_delay m now name seconds)
unfolding set_shutdown_delay
delay-NoOrphan m now name seconds v = cancel_shutdown-NoOrphan _ name (configs-NoOrphan m _ v)

pub toggle-NoOrphan :
    (m : Manager) (name : String) (enabled : Bool)
    → NoOrphan m
    → NoOrphan (set_auto_shutdown_enabled m name enabled)
unfolding set_auto_shutdown_enabled
toggle-NoOrphan m name true v = configs-NoOrphan m _ v
toggle-NoOrphan m name false v =
    clear-NoOrphan _ name (cancel_shutdown-NoOrphan _ name (configs-NoOrphan m _ v))

pub fire-NoOrphan :
    (m : Manager) (t : ℕ) (players : Option ℕ) → NoOrphan m → NoOrphan (timer_fires m t players).0
unfolding timer_fires
fire-NoOrphan m t players v = elim (Option-cases (m.armed t)) [
  | inl e ↦ rw (e, timer_fires) v
  | inr ((name, uuid), e) ↦ rw (e, timer_fires) (forget-NoOrphan m name uuid t v e)
]
