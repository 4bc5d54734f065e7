-- ===== src/DynamicServer/Idle/Rounds.antt =====
-- What the idle check comes to, after any number of its rounds.
use rms_gate.Base.{
  ℕ, suc, String, ◌≡◌, refl, ap, ◌∙◌, ◌≢◌, inl, inr, true, false, none, some, List, [], ◌∷◌, ◌++◌,
  Option-cases, Occurs, ℤ, pos, lookup,
}
use rms_gate.DynamicServer.{Config, Manager, is_auto_shutdown_enabled, in_protection, timer_fires}
use rms_gate.DynamicServer.Schedule.{Reach, Reach-Inv}
use rms_gate.DynamicServer.Idle.{
  Look, check_all_auto_start_servers_idle, periodic_idle_check, at_rest, round-Reach,
}
use rms_gate.DynamicServer.Idle.Known.{Reach-Known}
use rms_gate.DynamicServer.Idle.Decided.{decides, own_idle, own_busy, rounds-configs}

rounds-Reach :
    (cfg : Config) (rounds : List (String → Look)) (m : Manager)
    → Reach cfg (at_rest m)
    → Reach cfg (at_rest (periodic_idle_check cfg rounds m))
unfolding periodic_idle_check
rounds-Reach cfg [] m r = r
rounds-Reach cfg (look ∷ rounds) m r =
    rounds-Reach cfg rounds _ (round-Reach cfg look cfg.auto_start_servers m r)

last_round :
    (cfg : Config) (rounds : List (String → Look)) (last : String → Look) (m : Manager)
    → periodic_idle_check cfg (rounds ++ (last ∷ [])) m
      ≡ check_all_auto_start_servers_idle cfg last cfg.auto_start_servers
          (periodic_idle_check cfg rounds m)
unfolding periodic_idle_check
last_round cfg [] last m = refl
last_round cfg (look ∷ rounds) last m = last_round cfg rounds last _

-- Two managers with the same configurations.
same_enabled :
    (m m' : Manager) (name : String)
    → m'.server_configs ≡ m.server_configs
    → is_auto_shutdown_enabled m' name ≡ is_auto_shutdown_enabled m name
unfolding is_auto_shutdown_enabled
same_enabled m m' name e = rw e refl

same_protection :
    (m m' : Manager) (now : ℤ) (name : String)
    → m'.server_configs ≡ m.server_configs
    → in_protection m' now name ≡ in_protection m now name
unfolding in_protection
same_protection m m' now name e = rw e refl

timer-stops :
    {cfg : Config} {m : Manager}
    → Reach cfg (at_rest m)
    → (name uuid : String) → lookup name cfg.server_uuid_map ≡ some uuid
    → lookup name m.shutdown_timers ≢ none
    → (t : ℕ) × (lookup name m.shutdown_timers ≡ some t)
      × ((timer_fires m t (some 0)).1 ≡ some uuid)
unfolding timer_fires
timer-stops {cfg} {m} r name uuid u held = elim (Option-cases (lookup name m.shutdown_timers)) [
  | inl e ↦ absurd (held e)
  | inr (t, e) ↦
      let (v, armed) = (Reach-Inv r).no_orphan.known name t e in
      let same : lookup name cfg.server_uuid_map ≡ some v =
        (Reach-Known r).of_timer t name v armed in
      let stops : v ≡ uuid = cc (same, u) in (t, e, rw (armed, timer_fires) (ap some stops))
]

module _ (cfg : Config) (m : Manager) (rounds : List (String → Look)) (last : String → Look)
    (name : String) where
  -- After any history of whole calls and any rounds, a round that finds a managed server empty, with shutdown
  -- enabled, no protection, and an instance that the service reports as running, leaves a timer of
  -- it, which stops the instance if it fires while the server is empty.
  pub idle_stopped :
      (uuid : String)
      → Reach cfg (at_rest m)
      → Occurs name cfg.auto_start_servers
      → lookup name cfg.server_uuid_map ≡ some uuid
      → is_auto_shutdown_enabled m name ≡ true
      → in_protection m (last name).now name ≡ false
      → (last name).players ≡ some 0
      → (last name).status uuid ≡ some (pos 3)
      → let m' = periodic_idle_check cfg (rounds ++ (last ∷ [])) m in
        (t : ℕ) × (lookup name m'.shutdown_timers ≡ some t)
        × ((timer_fires m' t (some 0)).1 ≡ some uuid)
  idle_stopped uuid r at u on free nobody runs =
      let m1 = periodic_idle_check cfg rounds m in
      let own = λ (m2 : Manager) (same : m2.server_configs ≡ m.server_configs).
        own_idle cfg m2 name uuid (last name) u (same_enabled m m2 name same ∙ on)
          (same_protection m m2 (last name).now name same ∙ free) nobody runs in
      let held =
        decides cfg last name (λ x. x ≢ none) m.server_configs cfg.auto_start_servers m1 own
          (rounds-configs cfg rounds m) at in
      timer-stops (rounds-Reach cfg (rounds ++ (last ∷ [])) m r) name uuid u
        (rw (last_round cfg rounds last m) held)

  -- After any history of whole calls and any rounds, a round that finds players on a managed server without a
  -- protection period leaves no timer of it that can fire.
  pub players_keep :
      (n : ℕ)
      → Reach cfg (at_rest m)
      → Occurs name cfg.auto_start_servers
      → in_protection m (last name).now name ≡ false
      → (last name).players ≡ some (suc n)
      → (t : ℕ) (uuid : String)
      → (periodic_idle_check cfg (rounds ++ (last ∷ [])) m).armed t ≢ some (name, uuid)
  players_keep n r at free players t uuid h =
      let m1 = periodic_idle_check cfg rounds m in
      let own = λ (m2 : Manager) (same : m2.server_configs ≡ m.server_configs).
        own_busy cfg m2 name (last name) n (same_protection m m2 (last name).now name same ∙ free)
          players in
      let gone =
        decides cfg last name (λ x. x ≡ none) m.server_configs cfg.auto_start_servers m1 own
          (rounds-configs cfg rounds m) at in
      let r' = rounds-Reach cfg (rounds ++ (last ∷ [])) m r in
      cc ((Reach-Inv r').no_orphan.found t name uuid h, last_round cfg rounds last m, gone)
