-- ===== src/LoadBalancer/Server/Overlap/Off.antt =====
-- A backend that was switched off, under any order of calls that does not switch it on.
use rms_gate.Base.{
  List, ℕ, String, ◌≡◌, sym, ap, ◌∙◌, ◌≢◌, inl, inr, Bool, true, false, not, ◌&&◌, Option, some,
  arith, ◌==◌, Bool-cases, Option-cases, >>=-eq-some, get_elem?, set, get_elem?-set_self,
  get_elem?-set_ne, lt-length_of_get_elem?, ℤ,
}
use mathlib.Core.Path.{subst}
use rms_gate.Float64.{Floats}
use rms_gate.LoadBalancer.Backend.{
  Backend, record_latency, is_available, add_player, remove_player, record_success, record_failure,
  set_healthy, set_disabled, reset_success_count,
}
use rms_gate.LoadBalancer.Backend.Window.{record_latency-frame}
use rms_gate.LoadBalancer.HealthCheck.Rounds.{run_answer}
use rms_gate.LoadBalancer.Strategy.{Environment}
use rms_gate.LoadBalancer.Server.{
  ServerInfo, TrackedConn, DialResult, dialled, failed, dial_select, dial_failed, dial_succeeded,
  dial_finish, close, store,
}
use rms_gate.LoadBalancer.Server.Limit.{dial_select-available}
use rms_gate.LoadBalancer.Server.Overlap.{
  Traffic, Step, refuses, chooses, finishes, closes, answers, switches,
}
use rms_gate.LoadBalancer.Server.Overlap.Counted.{run_answer-Same}
use rms_gate.LoadBalancer.Server.Overlap.Bound.{dial_select-nil, finish-inside}

module _ {fl : Floats} {k : ℕ} where
  -- Whether a step switches the backend at a position on.
  unfoldable pub enables : {s t : Traffic fl.Float} → ℕ → Step fl k s t → Bool
  enables p (refuses s env server' h) = false
  enables p (chooses s env server' q h room) = false
  enables p (finishes s q n player d server' c w h) = false
  enables p (closes s c) = false
  enables p (answers s cfg ping q b cache g) = false
  enables p (switches s q b disabled g) = (q == p) && not disabled

-- Steps that do not switch the backend at position `p` on.
pub data Run (fl : Floats) (k p : ℕ) (s : Traffic fl.Float) : Traffic fl.Float → Type 0 where
  none_yet : Run fl k p s s
  more :
      {t u : Traffic fl.Float}
      → Run fl k p s t
      → (step : Step fl k t u) → enables p step ≡ false
      → Run fl k p s u

abbrev pub Off : ℕ → List Backend → Type 0
Off p bs = (b : Backend) × (get_elem? bs p ≡ some b) × (b.disabled ≡ true)

written-Off :
    (bs : List Backend) (p q : ℕ) (b b' : Backend)
    → get_elem? bs q ≡ some b
    → (b.disabled ≡ true → (q == p) ≡ true → b'.disabled ≡ true)
    → Off p bs
    → Off p (set bs q b')
written-Off bs p q b b' g keep (c, at, off) = elim (Bool-cases (q == p)) [
  | inl m ↦
      let here : q ≡ p = ground (arith, m) in
      let same : b ≡ c = ground (arith, g, ap (get_elem? bs) here, at) in
      (
        b',
        ap (get_elem? (set bs q b')) (sym here)
            ∙ get_elem?-set_self bs q b' (lt-length_of_get_elem? bs q b g),
        keep (ap (λ x. x.disabled) same ∙ off) m,
      )
  | inr m ↦ (c, get_elem?-set_ne bs q p b' (λ z. ground (arith, m, z)) ∙ at, off)
]

latency_disabled :
    (b b' : Backend) (l : ℕ) → record_latency b l ≡ some b' → b'.disabled ≡ b.disabled
latency_disabled b b' l h = ground (arith, record_latency-frame b b' l h)

dial_failed-disabled :
    (u : ℤ) (b b' : Backend) (l : ℕ) → dial_failed u b l ≡ some b' → b'.disabled ≡ b.disabled
unfolding dial_failed record_failure set_healthy reset_success_count
dial_failed-disabled u b b' l h =
    let (c, e, q) = >>=-eq-some (record_latency (record_failure b) l) _ b' h in
    ground (arith, q, latency_disabled (record_failure b) c l e)

dial_succeeded-disabled :
    (b b' : Backend) (player : Option String) (l : ℕ)
    → dial_succeeded b player l ≡ some b'
    → b'.disabled ≡ b.disabled
unfolding dial_succeeded record_success add_player
dial_succeeded-disabled b b' player l h =
    let (c, e, q) = >>=-eq-some (record_latency (record_success b) l) _ b' h in
    ground (arith, q, latency_disabled (record_success b) c l e)

module _ (fl : Floats) where
  close-Off :
      (s : ServerInfo fl.Float) (c : TrackedConn) (p : ℕ)
      → Off p s.backends
      → Off p (close s c).0.backends
  unfolding close store remove_player
  close-Off s c p off = elim (Bool-cases c.closed) [
    | inl m ↦ rw m off
    | inr m ↦ elim (Option-cases (get_elem? s.backends c.backend)) [
      | inl g ↦ rw (m, g) off
      | inr (b, g) ↦
          let b' = remove_player b c.player_name in
          let kept : b'.disabled ≡ b.disabled = ground arith in
          rw (m, g) (written-Off s.backends p c.backend b b' g (λ d at. kept ∙ d) off)
    ]
  ]

  finish-Off :
      (s s' : ServerInfo fl.Float) (p q : ℕ) (player : Option String) (d : DialResult)
      (c : Option TrackedConn)
      → dial_finish s q player d ≡ some (s', c)
      → Off p s.backends
      → Off p s'.backends
  unfolding dial_finish store
  finish-Off s s' p q player d c h off = elim (Option-cases (get_elem? s.backends q)) [
    | inl g ↦ absurd (finish-inside fl s q player d _ h g)
    | inr (b, g) ↦ go b g d h
  ]
    where
      go :
          (b : Backend)
          → get_elem? s.backends q ≡ some b
          → (d : DialResult) → dial_finish s q player d ≡ some (s', c)
          → Off p s'.backends
      go b g (failed l) h =
          let h1 = rw (g, dial_finish) at h in
          let (b', e, k) = >>=-eq-some (dial_failed s.unhealthy_after_failures b l) _ (s', c) h1 in
          let wrote : set s.backends q b' ≡ s'.backends = ground (arith, k) in
          let same = dial_failed-disabled s.unhealthy_after_failures b b' l e in
          subst (Off p) wrote (written-Off s.backends p q b b' g (λ d at. same ∙ d) off)
      go b g (dialled l) h =
          let h1 = rw (g, dial_finish) at h in
          let (b', e, k) = >>=-eq-some (dial_succeeded b player l) _ (s', c) h1 in
          let wrote : set s.backends q b' ≡ s'.backends = ground (arith, k) in
          let same = dial_succeeded-disabled b b' player l e in
          subst (Off p) wrote (written-Off s.backends p q b b' g (λ d at. same ∙ d) off)

  Step-Off :
      {k : ℕ} {s t : Traffic fl.Float} (p : ℕ) (step : Step fl k s t)
      → enables p step ≡ false
      → Off p s.server.backends
      → Off p t.server.backends
  unfolding enables store set_disabled
  Step-Off p (refuses s env server' h) e off =
      subst (Off p) (sym (dial_select-nil fl s.server env server' h)) off
  Step-Off p (chooses s env server' q h room) e off =
      let (same, _, _, _) = dial_select-available fl s.server env server' q h in
      subst (Off p) (sym same) off
  Step-Off p (finishes s q n player d server' c w h) e off =
      finish-Off s.server server' p q player d c h off
  Step-Off p (closes s c) e off = close-Off s.server c p off
  Step-Off p (answers s cfg ping q b cache g) e off =
      let same = run_answer-Same fl cfg ping b cache in
      written-Off s.server.backends p q b (run_answer fl cfg ping b cache).state.0 g
        (λ d at. same.3 ∙ d) off
  Step-Off p (switches s q b disabled g) e off =
      written-Off s.server.backends p q b (set_disabled b disabled) g
        (λ d at. ground (arith, e, at)) off

  pub Run-Off :
      {k p : ℕ} {s t : Traffic fl.Float}
      → Run fl k p s t
      → Off p s.server.backends
      → Off p t.server.backends
  Run-Off none_yet off = off
  Run-Off {k} {p} (more r step e) off = Step-Off p step e (Run-Off r off)

  -- A dial does not choose a backend that is off.
  pub Off-dial :
      (s s1 : ServerInfo fl.Float) (env : Environment fl.Float) (p : ℕ)
      → Off p s.backends
      → dial_select fl s env ≢ some (s1, some p)
  unfolding is_available
  Off-dial s s1 env p (b, at, off) h =
      let (_, c, here, up) = dial_select-available fl s env s1 p h in
      let same : b ≡ c = ground (arith, at, here) in
      let down : is_available b ≡ false = ground (arith, off) in
      ground (arith, up, ap is_available same, down)
