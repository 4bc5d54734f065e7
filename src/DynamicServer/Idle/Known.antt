-- ===== src/DynamicServer/Idle/Known.antt =====
-- The instance that a timer stops is the one of the configuration.
use rms_gate.Base.{
  ℕ, String, ◌≡◌, refl, ◌⊎◌, inl, inr, Bool, true, false, Option, none, some, arith, Option-cases,
  ℤ, lookup,
}
use rms_gate.DynamicServer.{
  Config, Manager, new_manager, cancel_shutdown, set_shutdown_delay, clear_protection_period,
  set_auto_shutdown_enabled, schedule_check, schedule_arm, timer_fires,
}
use rms_gate.DynamicServer.Schedule.{
  System, Step, Reach, here, next, asks, answered, cancels, delays, clears, toggles, fires,
}

-- Calls that arm no timer.
abbrev Fewer : Manager → Manager → Type 0
Fewer m m' = (t : ℕ) (n u : String) → m'.armed t ≡ some (n, u) → m.armed t ≡ some (n, u)

cancel-Fewer : (m : Manager) (name : String) → Fewer m (cancel_shutdown m name)
unfolding cancel_shutdown
cancel-Fewer m name t n u h = ground arith

clear-Fewer : (m : Manager) (name : String) → Fewer m (clear_protection_period m name)
unfolding clear_protection_period
clear-Fewer m name t n u h = ground arith

delay-Fewer :
    (m : Manager) (now : ℤ) (name : String) (seconds : ℕ)
    → Fewer m (set_shutdown_delay m now name seconds)
unfolding set_shutdown_delay
delay-Fewer m now name seconds t n u h = cancel-Fewer _ name t n u h

toggle-Fewer :
    (m : Manager) (name : String) (enabled : Bool)
    → Fewer m (set_auto_shutdown_enabled m name enabled)
unfolding set_auto_shutdown_enabled
toggle-Fewer m name true t n u h = h
toggle-Fewer m name false t n u h = cancel-Fewer _ name t n u (clear-Fewer _ name t n u h)

fire-Fewer : (m : Manager) (t : ℕ) (players : Option ℕ) → Fewer m (timer_fires m t players).0
unfolding timer_fires
fire-Fewer m t players i n u h = elim (Option-cases (m.armed t)) [
  | inl e ↦ ground (arith, e)
  | inr ((name, uuid), e) ↦ ground (arith, e)
]

pub record Known (cfg : Config) (s : System) : Type 0 where
  pub of_timer :
      (t : ℕ) (n u : String)
      → s.manager.armed t ≡ some (n, u)
      → lookup n cfg.server_uuid_map ≡ some u
  pub of_question : (n u : String) → s.waiting ≡ some (n, u) → lookup n cfg.server_uuid_map ≡ some u

Fewer-Known :
    {cfg : Config} (s : System) (m : Manager)
    → Fewer s.manager m
    → Known cfg s
    → Known cfg (record s { manager = m })
Fewer-Known s m f v = record {
  of_timer = λ t n u h. v.of_timer t n u (f t n u h);
  of_question = v.of_question;
}

schedule_check-uuid :
    (cfg : Config) (m : Manager) (name uuid : String)
    → schedule_check cfg m name ≡ some uuid
    → lookup name cfg.server_uuid_map ≡ some uuid
unfolding schedule_check
schedule_check-uuid cfg m name uuid h = ground arith

schedule_arm-armed :
    (m : Manager) (name uuid : String) (status : Option ℤ) (t : ℕ) (n u : String)
    → (schedule_arm m name uuid status).armed t ≡ some (n, u)
    → (m.armed t ≡ some (n, u)) ⊎ ((name ≡ n) × (uuid ≡ u))
unfolding schedule_arm
schedule_arm-armed m name uuid none t n u h = inl h
schedule_arm-armed m name uuid (some st) t n u h = ground arith

Step-Known : {cfg : Config} {s t : System} → Step cfg s t → Known cfg s → Known cfg t
Step-Known (asks m name uuid h) v = record {
  of_timer = v.of_timer;
  of_question = λ n u e. ground (arith, schedule_check-uuid _ m name uuid h);
}
Step-Known (answered m name uuid status) v = record {
  of_timer = λ t n u h. elim (schedule_arm-armed m name uuid status t n u h) [
    | inl before ↦ v.of_timer t n u before
    | inr (same, instance_uuid) ↦ rw⁻¹ (same, instance_uuid) (v.of_question name uuid refl)
  ];
  of_question = λ n u e. cc;
}
Step-Known (cancels m name) v = Fewer-Known _ _ (cancel-Fewer m name) v
Step-Known (delays s now name seconds) v =
    Fewer-Known s _ (delay-Fewer s.manager now name seconds) v
Step-Known (clears s name) v = Fewer-Known s _ (clear-Fewer s.manager name) v
Step-Known (toggles s name enabled) v = Fewer-Known s _ (toggle-Fewer s.manager name enabled) v
Step-Known (fires s t players) v = Fewer-Known s _ (fire-Fewer s.manager t players) v

-- In every history of whole calls a timer stops the instance that the configuration names for its server.
pub Reach-Known : {cfg : Config} {s : System} → Reach cfg s → Known cfg s
unfolding new_manager
Reach-Known here = record { of_timer = λ t n u e. cc; of_question = λ n u e. cc }
Reach-Known (next r st) = Step-Known st (Reach-Known r)
