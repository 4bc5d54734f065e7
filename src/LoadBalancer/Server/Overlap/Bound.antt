-- ===== src/LoadBalancer/Server/Overlap/Bound.antt =====
-- The connections of a server under any order of calls.
use rms_gate.Base.{
  ℕ, suc, ◌+◌, ◌≤◌, ◌<◌, String, ◌≡◌, refl, sym, ap, ◌∙◌, ◌≢◌, ◌⊎◌, inl, inr, true, Option, none,
  some, arith, ◌==◌, Bool-cases, Option-cases, >>=-eq-some, get_elem?, set, All, get_elem?-set_self,
  get_elem?-set_ne, lt-length_of_get_elem?, All-get_elem?, pos, pos_part, ◌≤ℤ◌,
}
use mathlib.Core.Path.{subst}
use rms_gate.Float64.{Floats}
use rms_gate.LoadBalancer.Backend.{Backend, is_available, remove_player, set_disabled}
use rms_gate.LoadBalancer.Strategy.{Environment, Ref, refs_from, select}
use rms_gate.LoadBalancer.Server.{
  ServerInfo, TrackedConn, DialResult, dialled, failed, dial_select, dial_failed, dial_succeeded,
  dial_finish, close, store,
}
use rms_gate.LoadBalancer.Server.Limit.{dial_select-available}
use rms_gate.LoadBalancer.HealthCheck.Rounds.{run_answer}
use rms_gate.LoadBalancer.Server.Overlap.{
  Traffic, put, Step, refuses, chooses, finishes, closes, answers, switches, Reach, here, next,
}
use rms_gate.LoadBalancer.Server.Overlap.Counted.{
  Starts, Starts-Kept, chosen-Kept, failed-Kept, dialled-Kept, removed-Kept, switched-Kept,
  run_answer-Same, Kept,
}

module _ (fl : Floats) (s : ServerInfo fl.Float) (env : Environment fl.Float) where
  -- A dial that finds no backend changes none.
  pub dial_select-nil :
      (s1 : ServerInfo fl.Float) → dial_select fl s env ≡ some (s1, none) → s1.backends ≡ s.backends
  unfolding dial_select
  dial_select-nil s1 h = go (select fl s.strategy env (refs_from 0 s.backends)) refl
    where
      go :
          (x : Option (Option Ref))
          → select fl s.strategy env (refs_from 0 s.backends) ≡ x
          → s1.backends ≡ s.backends
      go none e = let h' = rw (e, dial_select) at h in cc
      go (some none) e = let h' = rw (e, dial_select) at h in ground arith
      go (some (some r)) e = let h' = rw (e, dial_select) at h in absurd (ground arith)

module _ (fl : Floats) where
  -- Every backend with a limit is counted.
  abbrev pub AllKept : ℕ → Traffic fl.Float → Type 0
  AllKept k s =
      (q : ℕ) (b : Backend) → get_elem? s.server.backends q ≡ some b → Kept k (s.pending q) b

  -- A backend is written, and the dials under way to it are counted anew.
  written-AllKept :
      (k n : ℕ) (s : Traffic fl.Float) (server' : ServerInfo fl.Float) (p : ℕ) (b b' : Backend)
      → get_elem? s.server.backends p ≡ some b
      → server'.backends ≡ set s.server.backends p b'
      → Kept k n b'
      → AllKept k s
      → AllKept k (record { server = server'; pending = put p n s.pending })
  written-AllKept k n s server' p b b' g w v all q c e =
      let e' : get_elem? (set s.server.backends p b') q ≡ some c =
        ap (λ bs. get_elem? bs q) (sym w) ∙ e in
      elim (Bool-cases (q == p)) [
        | inl m ↦
            let at : q ≡ p = ground (arith, m) in
            let own =
              get_elem?-set_self s.server.backends p b'
                (lt-length_of_get_elem? s.server.backends p b g) in
            let here = ap (λ j. get_elem? (set s.server.backends p b') j) (sym at) ∙ e' in
            let same : b' ≡ c = cc (own, here) in rw m (subst (Kept k n) same v)
        | inr m ↦ rw m (
            all q c
              (sym (get_elem?-set_ne s.server.backends p q b' (λ z. ground (arith, m, z))) ∙ e'))
      ]

  -- The same where the dials under way stay as they are.
  stored-AllKept :
      (k : ℕ) (s : Traffic fl.Float) (p : ℕ) (b b' : Backend)
      → get_elem? s.server.backends p ≡ some b
      → Kept k (s.pending p) b'
      → AllKept k s
      → AllKept k (record s { server = store s.server p b' })
  unfolding store
  stored-AllKept k s p b b' g v all q c e =
      let w = written-AllKept k (s.pending p) s (store s.server p b') p b b' g refl v all q c e in
      elim (Bool-cases (q == p)) [
        | inl m ↦
            let at : p ≡ q = ground (arith, m) in
            let own : Kept k (s.pending p) c = rw m at w in
            subst (λ j. Kept k (s.pending j) c) at own
        | inr m ↦ rw m at w
      ]

  close-AllKept :
      (k : ℕ) (s : Traffic fl.Float) (c : TrackedConn)
      → AllKept k s
      → AllKept k (record s { server = (close s.server c).0 })
  unfolding close
  close-AllKept k s c all = elim (Bool-cases c.closed) [
    | inl m ↦ rw m all
    | inr m ↦ elim (Option-cases (get_elem? s.server.backends c.backend)) [
      | inl g ↦ rw (m, g) all
      | inr (b, g) ↦
          rw (m, g)
            (stored-AllKept k s c.backend b (remove_player b c.player_name) g
              (removed-Kept k (s.pending c.backend) b c.player_name (all c.backend b g)) all)
    ]
  ]

  pub finish-inside :
      (s : ServerInfo fl.Float) (p : ℕ) (player : Option String) (d : DialResult)
      (r : ServerInfo fl.Float × Option TrackedConn)
      → dial_finish s p player d ≡ some r
      → get_elem? s.backends p ≢ none
  unfolding dial_finish
  finish-inside s p player (failed l) r h g = absurd (ground (arith, h, g))
  finish-inside s p player (dialled l) r h g = absurd (ground (arith, h, g))

  finish-AllKept :
      (k : ℕ) (s : Traffic fl.Float) (p n : ℕ) (player : Option String) (d : DialResult)
      (server' : ServerInfo fl.Float) (c : Option TrackedConn)
      → s.pending p ≡ suc n
      → dial_finish s.server p player d ≡ some (server', c)
      → AllKept k s
      → AllKept k (record { server = server'; pending = put p n s.pending })
  unfolding dial_finish store
  finish-AllKept k s p n player d server' c waits h all =
      elim (Option-cases (get_elem? s.server.backends p)) [
        | inl g ↦ absurd (finish-inside s.server p player d _ h g)
        | inr (b, g) ↦
            let before : Kept k (suc n) b = subst (λ j. Kept k j b) waits (all p b g) in
            go b g before d h
      ]
    where
      go :
          (b : Backend)
          → get_elem? s.server.backends p ≡ some b
          → Kept k (suc n) b
          → (d : DialResult) → dial_finish s.server p player d ≡ some (server', c)
          → AllKept k (record { server = server'; pending = put p n s.pending })
      go b g before (failed l) h =
          let h1 = rw (g, dial_finish) at h in
          let (b', e, q) =
            >>=-eq-some (dial_failed s.server.unhealthy_after_failures b l) _ (server', c) h1 in
          written-AllKept k n s server' p b b' g (ground (arith, q))
            (failed-Kept k n s.server.unhealthy_after_failures b b' l e before) all
      go b g before (dialled l) h =
          let h1 = rw (g, dial_finish) at h in
          let (b', e, q) = >>=-eq-some (dial_succeeded b player l) _ (server', c) h1 in
          written-AllKept k n s server' p b b' g (ground (arith, q))
            (dialled-Kept k n b b' player l e before) all

  chosen-AllKept :
      (k : ℕ) (s : Traffic fl.Float) (env : Environment fl.Float) (server' : ServerInfo fl.Float)
      (p : ℕ)
      → dial_select fl s.server env ≡ some (server', some p)
      → s.pending p < k
      → AllKept k s
      → AllKept k (record { server = server'; pending = put p (s.pending p + 1) s.pending })
  chosen-AllKept k s env server' p h room all q c e =
      let (same, b, g, a) = dial_select-available fl s.server env server' p h in
      let e' : get_elem? s.server.backends q ≡ some c = ap (λ bs. get_elem? bs q) (sym same) ∙ e in
      elim (Bool-cases (q == p)) [
        | inl m ↦
            let at : q ≡ p = ground (arith, m) in
            let here = ap (λ j. get_elem? s.server.backends j) (sym at) ∙ e' in
            let same' : b ≡ c = cc (g, here) in
            let kept =
              chosen-Kept k (s.pending q) c (subst (λ x. is_available x ≡ true) same' a)
                (subst (λ j. s.pending j < k) (sym at) room) (all q c e') in
            rw m (subst (λ j. Kept k (s.pending j + 1) c) at kept)
        | inr m ↦ rw m (all q c e')
      ]

  Step-AllKept : {k : ℕ} {s t : Traffic fl.Float} → Step fl k s t → AllKept k s → AllKept k t
  Step-AllKept (refuses s env server' h) all = λ q c e.
      all q c (ap (λ bs. get_elem? bs q) (sym (dial_select-nil fl s.server env server' h)) ∙ e)
  Step-AllKept {k} (chooses s env server' p h room) all =
      chosen-AllKept k s env server' p h room all
  Step-AllKept {k} (finishes s p n player d server' c w h) all =
      finish-AllKept k s p n player d server' c w h all
  Step-AllKept {k} (closes s c) all = close-AllKept k s c all
  Step-AllKept {k} (answers s cfg ping p b cache g) all =
      let same = run_answer-Same fl cfg ping b cache in
      stored-AllKept k s p b (run_answer fl cfg ping b cache).state.0 g
        (ground (arith, same, all p b g)) all
  Step-AllKept {k} (switches s p b disabled g) all =
      stored-AllKept k s p b (set_disabled b disabled) g
        (switched-Kept k (s.pending p) b disabled (all p b g)) all

  Reach-AllKept :
      {k : ℕ} {server : ServerInfo fl.Float} {s : Traffic fl.Float}
      → ((q : ℕ) (b : Backend) → get_elem? server.backends q ≡ some b → Kept k 0 b)
      → Reach fl k server s
      → AllKept k s
  Reach-AllKept start here = start
  Reach-AllKept start (next r st) = Step-AllKept st (Reach-AllKept start r)

-- With at most `k` dials under way to a backend at a time, no order of dials, closes, health checks
-- and switches brings a backend more than k - 1 connections above its limit; with one dial at a
-- time the limit is kept. The server starts with no dial under way, within its limits, and counting
-- at least the players it lists.
pub overlap_bounded :
    (fl : Floats) {k : ℕ} {server : ServerInfo fl.Float} {s : Traffic fl.Float}
    → 1 ≤ k
    → All (Starts k) server.backends
    → Reach fl k server s
    → (q : ℕ) (b : Backend) → get_elem? s.server.backends q ≡ some b
    → (b.max_connections ≤ℤ pos 0) ⊎ (b.current_conns + 1 ≤ pos_part b.max_connections + k)
overlap_bounded fl {k} {server} {s} h start r q b g =
    let begun = λ (q : ℕ) (b : Backend) (g : get_elem? server.backends q ≡ some b).
      Starts-Kept k b h (All-get_elem? (Starts k) server.backends q b start g) in
    elim (Reach-AllKept fl begun r q b g) [
      | inl free ↦ inl free
      | inr v ↦ inr (omega (arith, v.counted))
    ]
