-- ===== src/Plugin/Handlers/Admission.antt =====
-- Who is let through.
use rms_gate.Base.{
  ℕ, String, ◌≡◌, refl, ap, ◌↔◌, ◌⊎◌, inl, inr, Bool, true, false, Option, none, some, List, [],
  ◌∷◌, arith, Bool-cases, Option-cases, ℤ, pos, eq_pos, ◌==ℤ◌, lookup, codes,
}
use rms_gate.Config.{Config as FileConfig}
use rms_gate.Whitelist.{
  CheckResult, allowed, not_in_whitelist, server_error, WhitelistRequest, Service, check_address,
  result_of_status, check,
}
use rms_gate.DynamicServer.{Config as DynamicConfig, is_auto_start_server}
use rms_gate.McsManager.{Config as McsConfig, Service as McsService, get_instance_status}
use rms_gate.McsManager.Status.{
  Answers, FirstRuns, get_instance_status_iff, get_instance_status-running,
}
use rms_gate.Plugin.Handlers.{on_login, starting, Passage, pass, on_server_pre_connect}

-- The service answered the request of this player with a status.
abbrev pub Replies :
    {Request : Type 0} → Service Request → List ℕ → ℤ → WhitelistRequest → ℕ → Type 0
Replies {Request} sv base_url timeout body status =
    (json : List ℕ) × (req : Request) × (sv.encode body ≡ some json)
    × (sv.new_request (check_address base_url) json ≡ some req)
    × (sv.do_request req timeout ≡ some status)

status-allowed : (status : ℕ) → result_of_status status ≡ allowed → status ≡ 200
unfolding result_of_status
status-allowed status e = ground arith

module _ {Request : Type 0} (sv : Service Request) (username uuid : String) (base_url : List ℕ)
    (timeout tier : ℤ) where
  abbrev request : WhitelistRequest
  request = record { username = username; uuid = uuid; server_tier = tier }

  check-allowed :
      check sv username uuid base_url timeout tier ≡ allowed
      → Replies sv base_url timeout request 200
  unfolding check
  check-allowed e = elim (Option-cases (sv.encode request)) [
    | inl f ↦ absurd (ground (arith, e, f))
    | inr (json, f) ↦ elim (Option-cases (sv.new_request (check_address base_url) json)) [
      | inl g ↦ absurd (ground (arith, e, f, g))
      | inr (req, g) ↦ elim (Option-cases (sv.do_request req timeout)) [
        | inl k ↦ absurd (ground (arith, e, f, g, k))
        | inr (status, k) ↦
            let ok : status ≡ 200 = status-allowed status (ground (arith, e, f, g, k)) in
            (json, req, f, g, ground (arith, k, ok))
      ]
    ]
  ]

  allowed-check :
      Replies sv base_url timeout request 200
      → check sv username uuid base_url timeout tier ≡ allowed
  unfolding check result_of_status
  allowed-check (json, req, f, g, k) = rw (f, check) (rw (g, check) (rw (k, check) refl))

on_login-check :
    {F Request : Type 0} (sv : Service Request) (cfg : FileConfig F) (username uuid : String)
    → on_login sv cfg username uuid ≡ none
    → check sv username uuid (codes cfg.api_url) cfg.timeout_seconds cfg.server_tier ≡ allowed
unfolding on_login
on_login-check sv cfg username uuid e =
    go (check sv username uuid (codes cfg.api_url) cfg.timeout_seconds cfg.server_tier) refl
  where
    go :
        (r : CheckResult)
        → check sv username uuid (codes cfg.api_url) cfg.timeout_seconds cfg.server_tier ≡ r
        → check sv username uuid (codes cfg.api_url) cfg.timeout_seconds cfg.server_tier ≡ allowed
    go allowed q = q
    go not_in_whitelist q = let e' = rw (q, on_login) at e in cc
    go server_error q = let e' = rw (q, on_login) at e in cc

-- A player is let in if and only if the whitelist service answers the request for this player with
-- status 200 in time: every error and every other status refuses.
pub on_login_iff :
    {F Request : Type 0} (sv : Service Request) (cfg : FileConfig F) (username uuid : String)
    → (on_login sv cfg username uuid ≡ none)
      ↔ Replies sv
          (codes cfg.api_url)
          cfg.timeout_seconds
          (record { username = username; uuid = uuid; server_tier = cfg.server_tier })
          200
unfolding on_login
on_login_iff sv cfg username uuid =
    let url = codes cfg.api_url in
    (
      (λ e.
          check-allowed sv username uuid url cfg.timeout_seconds cfg.server_tier
            (on_login-check sv cfg username uuid e)),
      λ r.
          rw (allowed-check sv username uuid url cfg.timeout_seconds cfg.server_tier r, on_login)
            refl,
    )

-- The instance of a server, "" where none is configured.
abbrev pub instance_of : DynamicConfig → String → String
instance_of cfg name = elim (lookup name cfg.server_uuid_map) [ none ↦ "" | some u ↦ u ]

module _ (sv : McsService) (cfg : DynamicConfig) (client : McsConfig) (name : String) where
  -- The service reports that the instance of the server runs.
  abbrev pub Running : Type 0
  Running =
      (instances : List _) × Answers sv client instances
      × FirstRuns (instance_of cfg name) instances

  status-Running :
      ((get_instance_status sv client (instance_of cfg name)).0 ==ℤ pos 3) ≡ true → Running
  status-Running e =
      (get_instance_status_iff sv client (instance_of cfg name)).0
        (get_instance_status-running sv client (instance_of cfg name) (eq_pos _ 3 e))

  Running-status : Running → (get_instance_status sv client (instance_of cfg name)).0 ≡ pos 3
  Running-status r = ap (λ x. x.0) ((get_instance_status_iff sv client (instance_of cfg name)).1 r)

module _ (sv : McsService) (cfg : DynamicConfig) (client : McsConfig)
    (ensure : String → Option Bool) (name : String) where
  let_through :
      (p : Passage)
      → on_server_pre_connect sv (some (cfg, client)) ensure (some name) ≡ some p
      → p.denied ≡ false
      → (is_auto_start_server cfg name ≡ false)
        ⊎ Running sv cfg client name
        ⊎ (ensure name ≡ some true)
  unfolding on_server_pre_connect
  let_through p e d = elim (Bool-cases (is_auto_start_server cfg name)) [
    | inr m ↦ inl m
    | inl m ↦
        elim (Bool-cases ((get_instance_status sv client (instance_of cfg name)).0 ==ℤ pos 3)) [
          | inl q ↦ inr (inl (status-Running sv cfg client name q))
          | inr q ↦ elim (Option-cases (ensure name)) [
            | inl n ↦ absurd (ground (arith, e, d, m, q, n))
            | inr (true, n) ↦ inr (inr n)
            | inr (false, n) ↦ absurd (ground (arith, e, d, m, q, n))
          ]
        ]
  ]

  -- A player gets to a server without being denied if and only if the server is not managed, the
  -- service reports that its instance runs, or `EnsureServerRunning` answers true.
  pub on_server_pre_connect_iff :
      ((p : Passage) × (on_server_pre_connect sv (some (cfg, client)) ensure (some name) ≡ some p)
        × (p.denied ≡ false))
      ↔ ((is_auto_start_server cfg name ≡ false)
          ⊎ Running sv cfg client name
          ⊎ (ensure name ≡ some true))
  unfolding on_server_pre_connect
  on_server_pre_connect_iff = ((λ (p, e, d). let_through p e d), back)
    where
      back :
          (is_auto_start_server cfg name ≡ false)
            ⊎ Running sv cfg client name
            ⊎ (ensure name ≡ some true)
          → (p : Passage) × (on_server_pre_connect sv (some (cfg, client)) ensure (some name)
              ≡ some p)
            × (p.denied ≡ false)
      back (inl m) = (pass, ground (arith, m), refl)
      back (inr (inl r)) =
          let three = ap (λ z. z ==ℤ pos 3) (Running-status sv cfg client name r) in
          elim (Bool-cases (is_auto_start_server cfg name)) [
            | inr m ↦ (pass, ground (arith, m), refl)
            | inl m ↦ (pass, ground (arith, m, three), refl)
          ]
      back (inr (inr n)) = elim (Bool-cases (is_auto_start_server cfg name)) [
        | inr m ↦ (pass, ground (arith, m), refl)
        | inl m ↦
            elim (Bool-cases ((get_instance_status sv client (instance_of cfg name)).0 ==ℤ pos 3)) [
              | inl q ↦ (pass, ground (arith, m, q), refl)
              | inr q ↦ (
                record { notices = starting name ∷ []; denied = false },
                ground (arith, m, q, n),
                refl,
              )
            ]
      ]
