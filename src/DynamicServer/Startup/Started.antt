-- ===== src/DynamicServer/Startup/Started.antt =====
-- When the call that starts a server answers true.
use rms_gate.Base.{
  ℕ, String, ◌≡◌, ◌≢◌, ◌↔◌, inl, inr, Bool, true, false, Option, some, arith, Option-cases, ℤ, pos,
  lookup,
}
use mathlib.Core.Path.{subst}
use rms_gate.DynamicServer.{Config}
use rms_gate.DynamicServer.Startup.{World, wait_for_server_ready, start_server}
use rms_gate.DynamicServer.Startup.Waiting.{
  FirstAt, Passed, Runs, Misses, Reaches, Allows, wait_for_server_ready_iff,
}

-- In the attempts that the timeouts allow, the instance comes to run and a backend is reached.
abbrev pub ComesUp : Config → World → Type 0
ComesUp cfg w =
    (starts connects : ℕ) × Allows cfg.startup_timeout_seconds cfg.poll_interval_seconds starts
    × Allows cfg.connectivity_timeout_seconds cfg.poll_interval_seconds connects
    × FirstAt (Passed w) (Runs w) 0 starts
    × (w.registered ≡ true)
    × FirstAt (Misses w) (Reaches w) 0 connects

Allows-unique : (a b : ℤ) (n k : ℕ) → Allows a b n → Allows a b k → n ≡ k
Allows-unique a b n k (q, e, f) (q', e', f') = ground (arith, e, e', f, f')

ready_iff :
    (cfg : Config) (w : World)
    → cfg.poll_interval_seconds ≢ pos 0
    → (wait_for_server_ready cfg w ≡ some true) ↔ ComesUp cfg w
ready_iff cfg w h =
    let (answer, starts, connects, e, s, c, found) = wait_for_server_ready_iff cfg w h in
    (
      (λ r.
          let (f, reg, g) = found.0 (ground (arith, e, r)) in (starts, connects, s, c, f, reg, g)),
      λ (starts', connects', s', c', f, reg, g).
          let same = Allows-unique _ _ starts' starts s' s in
          let same' = Allows-unique _ _ connects' connects c' c in
          let yes = found.1 (
            subst (λ n. FirstAt (Passed w) (Runs w) 0 n) same f,
            reg,
            subst (λ n. FirstAt (Misses w) (Reaches w) 0 n) same' g,
          ) in
          ground (arith, e, yes),
    )

-- Where the poll interval is not 0, a call that starts a server answers true if and only if the
-- server has an instance, the command to start it is accepted, and the server comes up in time.
pub start_server_iff :
    (cfg : Config) (name : String) (start : String → Option Bool) (world : String → World)
    → cfg.poll_interval_seconds ≢ pos 0
    → (start_server cfg name start world ≡ some true) ↔ (
        (uuid : String) × (lookup name cfg.server_uuid_map ≡ some uuid)
        × (start uuid ≡ some true)
        × ComesUp cfg (world uuid))
unfolding start_server
start_server_iff cfg name start world h = (forth, back)
  where
    forth :
        start_server cfg name start world ≡ some true
        → (uuid : String) × (lookup name cfg.server_uuid_map ≡ some uuid)
          × (start uuid ≡ some true)
          × ComesUp cfg (world uuid)
    forth e = elim (Option-cases (lookup name cfg.server_uuid_map)) [
      | inl f ↦ absurd (ground (arith, e, f))
      | inr (uuid, f) ↦ elim (Option-cases (start uuid)) [
        | inl g ↦ absurd (ground (arith, e, f, g))
        | inr (false, g) ↦ absurd (ground (arith, e, f, g))
        | inr (true, g) ↦ (uuid, f, g, (ready_iff cfg (world uuid) h).0 (ground (arith, e, f, g)))
      ]
    ]

    back :
        (uuid : String) × (lookup name cfg.server_uuid_map ≡ some uuid)
          × (start uuid ≡ some true)
          × ComesUp cfg (world uuid)
        → start_server cfg name start world ≡ some true
    back (uuid, f, g, up) =
        rw (f, start_server) (rw (g, start_server) ((ready_iff cfg (world uuid) h).1 up))
