-- ===== src/DynamicServer/Idle/Decided.antt =====
-- What a round of the idle check decides.
use rms_gate.Base.{
  ℕ, suc, String, ◌≡◌, refl, ap, ◌∙◌, ◌≢◌, inl, inr, true, false, Option, none, some, List, [], ◌∷◌,
  arith, Bool-cases, Option-cases, Occurs, ℤ, pos, str_eq, str_eq_iff, lookup, lookup-insert,
  lookup-insert_self, lookup-delete,
}
use rms_gate.DynamicServer.{
  Config, Manager, ShutdownConfig, skip, schedule, cancel, IdleAction, is_auto_shutdown_enabled,
  in_protection, idle_action, schedule_check, schedule_arm, cancel_shutdown,
}
use rms_gate.DynamicServer.Timers.{cancelled_timer}
use rms_gate.DynamicServer.Idle.{
  Look, schedule_shutdown, check_server, check_all_auto_start_servers_idle, periodic_idle_check,
}

-- The check of one server leaves the configurations and the timers of other servers alone.
record Isolated (name : String) (m m' : Manager) : Type 0 where
  configs : m'.server_configs ≡ m.server_configs
  others : (n : String) → name ≢ n → lookup n m'.shutdown_timers ≡ lookup n m.shutdown_timers

cancel-Isolated : (m : Manager) (name : String) → Isolated name m (cancel_shutdown m name)
unfolding cancel_shutdown
cancel-Isolated m name = record {
  configs = ground arith;
  others = λ n apart. ground (arith, lookup-delete name n m.shutdown_timers, str_eq_iff name n);
}

arm-Isolated :
    (m : Manager) (name uuid : String) (status : Option ℤ)
    → Isolated name m (schedule_arm m name uuid status)
unfolding schedule_arm
arm-Isolated m name uuid none = record { configs = refl; others = λ n apart. refl }
arm-Isolated m name uuid (some st) = record {
  configs = ground arith;
  others = λ n apart.
      ground (arith, lookup-insert name n m.next_timer m.shutdown_timers, str_eq_iff name n);
}

schedule-Isolated :
    (cfg : Config) (m : Manager) (name : String) (status : String → Option ℤ)
    → Isolated name m (schedule_shutdown cfg m name status)
unfolding schedule_shutdown
schedule-Isolated cfg m name status = elim (Option-cases (schedule_check cfg m name)) [
  | inl e ↦ rw (schedule_shutdown, e) (record { configs = refl; others = λ n apart. refl })
  | inr (uuid, e) ↦ rw (schedule_shutdown, e) (arm-Isolated m name uuid (status uuid))
]

check-Isolated :
    (cfg : Config) (m : Manager) (name : String) (look : Look)
    → Isolated name m (check_server cfg m name look)
unfolding check_server
check-Isolated cfg m name look = go (idle_action m look.now name look.players) refl
  where
    go :
        (a : IdleAction)
        → idle_action m look.now name look.players ≡ a
        → Isolated name m (check_server cfg m name look)
    go skip e = rw (e, check_server) (record { configs = refl; others = λ n apart. refl })
    go schedule e = rw (e, check_server) (schedule-Isolated cfg m name look.status)
    go cancel e = rw (e, check_server) (cancel-Isolated m name)

round-configs :
    (cfg : Config) (look : String → Look) (names : List String) (m : Manager)
    → (check_all_auto_start_servers_idle cfg look names m).server_configs ≡ m.server_configs
unfolding check_all_auto_start_servers_idle
round-configs cfg look [] m = refl
round-configs cfg look (name ∷ names) m =
    round-configs cfg look names _ ∙ (check-Isolated cfg m name (look name)).configs

-- What every check of a server establishes of its timer holds at the end of a round.
module _ (cfg : Config) (look : String → Look) (name : String) (P : Option ℕ → Type 0)
    (configs : List (String × ShutdownConfig)) where
  abbrev pub Holds : Manager → Type 0
  Holds m = P (lookup name m.shutdown_timers)

  abbrev pub Own : Type 0
  Own = (m : Manager) → m.server_configs ≡ configs → Holds (check_server cfg m name (look name))

  stays :
      (names : List String) (m : Manager)
      → Own
      → m.server_configs ≡ configs
      → Holds m
      → Holds (check_all_auto_start_servers_idle cfg look names m)
  unfolding check_all_auto_start_servers_idle
  stays [] m own same h = h
  stays (n ∷ names) m own same h =
      let a = check-Isolated cfg m n (look n) in
      stays names _ own (a.configs ∙ same) (elim (Bool-cases (str_eq n name)) [
        | inl e ↦ rw ((str_eq_iff n name).0 e) (own m same)
        | inr e ↦ rw (a.others name (λ q. cc (e, (str_eq_iff n name).1 q))) h
      ])

  pub decides :
      (names : List String) (m : Manager)
      → Own
      → m.server_configs ≡ configs
      → Occurs name names
      → Holds (check_all_auto_start_servers_idle cfg look names m)
  unfolding check_all_auto_start_servers_idle
  decides [] m own same at = absurd at
  decides (n ∷ names) m own same at =
      let a = check-Isolated cfg m n (look n) in
      elim at [
        | inl e ↦ stays names _ own (a.configs ∙ same) (rw e (own m same))
        | inr later ↦ decides names _ own (a.configs ∙ same) later
      ]

idle_action-empty :
    (m : Manager) (now : ℤ) (name : String)
    → in_protection m now name ≡ false
    → idle_action m now name (some 0) ≡ schedule
unfolding idle_action
idle_action-empty m now name free = rw free refl

idle_action-busy :
    (m : Manager) (now : ℤ) (name : String) (n : ℕ)
    → in_protection m now name ≡ false
    → idle_action m now name (some (suc n)) ≡ cancel
unfolding idle_action
idle_action-busy m now name n free = ground (arith, free)

schedule_shutdown-arms :
    (cfg : Config) (m : Manager) (name uuid : String) (status : String → Option ℤ)
    → lookup name cfg.server_uuid_map ≡ some uuid
    → is_auto_shutdown_enabled m name ≡ true
    → status uuid ≡ some (pos 3)
    → lookup name (schedule_shutdown cfg m name status).shutdown_timers ≢ none
unfolding schedule_shutdown schedule_check schedule_arm
schedule_shutdown-arms cfg m name uuid status u on runs =
    elim (Option-cases (lookup name m.shutdown_timers)) [
      | inl e ↦
          rw (schedule_shutdown, schedule_check, on, u, e)
            (rw (runs, schedule_arm)
              (λ h. cc (h, lookup-insert_self name m.next_timer m.shutdown_timers)))
      | inr (t, e) ↦ rw (schedule_shutdown, schedule_check, on, u, e) (λ h. cc)
    ]

pub own_idle :
    (cfg : Config) (m : Manager) (name uuid : String) (look : Look)
    → lookup name cfg.server_uuid_map ≡ some uuid
    → is_auto_shutdown_enabled m name ≡ true
    → in_protection m look.now name ≡ false
    → look.players ≡ some 0
    → look.status uuid ≡ some (pos 3)
    → lookup name (check_server cfg m name look).shutdown_timers ≢ none
unfolding check_server
own_idle cfg m name uuid look u on free nobody runs =
    let a = ap (idle_action m look.now name) nobody ∙ idle_action-empty m look.now name free in
    rw (check_server, a) (schedule_shutdown-arms cfg m name uuid look.status u on runs)

pub own_busy :
    (cfg : Config) (m : Manager) (name : String) (look : Look) (n : ℕ)
    → in_protection m look.now name ≡ false
    → look.players ≡ some (suc n)
    → lookup name (check_server cfg m name look).shutdown_timers ≡ none
unfolding check_server
own_busy cfg m name look n free players =
    let a = ap (idle_action m look.now name) players ∙ idle_action-busy m look.now name n free in
    rw (check_server, a) (cancelled_timer m name)

-- What a round sees of the configurations is what the round before left.
pub rounds-configs :
    (cfg : Config) (rounds : List (String → Look)) (m : Manager)
    → (periodic_idle_check cfg rounds m).server_configs ≡ m.server_configs
unfolding periodic_idle_check
rounds-configs cfg [] m = refl
rounds-configs cfg (look ∷ rounds) m =
    rounds-configs cfg rounds _ ∙ round-configs cfg look cfg.auto_start_servers m
