-- ===== src/LoadBalancer/Server/Limit.antt =====
-- The connection limit, when dials follow one another and when they overlap.
use rms_gate.Base.{
  ℕ, ◌+◌, ◌≤◌, ◌<◌, String, ◌≡◌, refl, sym, ap, ◌∙◌, ◌⊎◌, inl, inr, true, Option, none, some, arith,
  >>=-eq-some, get_elem?, set, All, get_elem?-set_self, lt-length_of_get_elem?, All-set,
  All-get_elem?, ℤ, pos, pos_part, ◌≤ℤ◌, two_31, inc_32,
}
use mathlib.Core.Path.{subst}
use rms_gate.Float64.{Floats}
use rms_gate.LoadBalancer.Backend.{
  Backend, record_latency, is_available, add_player, record_success, record_failure, set_healthy,
  reset_success_count,
}
use rms_gate.LoadBalancer.Backend.Window.{record_latency-frame}
use rms_gate.LoadBalancer.Strategy.{Ref, refs_from, Environment, select}
use rms_gate.LoadBalancer.Strategy.Sound.{select-Occurs, get_elem?-refs}
use rms_gate.LoadBalancer.Server.{
  ServerInfo, TrackedConn, DialResult, dialled, failed, dial_select, dial_failed, dial_succeeded,
  dial_finish, store,
}

-- A limit fits int32, and if there is one it is kept.
pub record WithinLimit (b : Backend) : Type 0 where
  pub fits : b.max_connections ≤ℤ pos 0x7fff_ffff
  pub kept : (b.max_connections ≤ℤ pos 0) ⊎ (b.current_conns ≤ pos_part b.max_connections)

dial_failed-conns :
    (u : ℤ) (b b' : Backend) (l : ℕ)
    → dial_failed u b l ≡ some b'
    → (b'.current_conns ≡ b.current_conns) × (b'.max_connections ≡ b.max_connections)
unfolding dial_failed record_failure set_healthy reset_success_count
dial_failed-conns u b b' l h =
    let (c, e, k) = >>=-eq-some (record_latency (record_failure b) l) _ b' h in
    ground (arith, k, record_latency-frame (record_failure b) c l e)

dial_succeeded-conns :
    (b b' : Backend) (player : Option String) (l : ℕ)
    → dial_succeeded b player l ≡ some b'
    → (b'.current_conns ≡ inc_32 b.current_conns) × (b'.max_connections ≡ b.max_connections)
unfolding dial_succeeded record_success add_player
dial_succeeded-conns b b' player l h =
    let (c, e, k) = >>=-eq-some (record_latency (record_success b) l) _ b' h in
    ground (arith, k, record_latency-frame (record_success b) c l e)

-- After an answer the counts that are not the dialled one are as they were.
module _ {F : Type 0} where
  finish-backends :
      (s s' : ServerInfo F) (p : ℕ) (player : Option String) (d : DialResult)
      (c : Option TrackedConn) (b : Backend)
      → get_elem? s.backends p ≡ some b
      → dial_finish s p player d ≡ some (s', c)
      → (b' : Backend) × (s'.backends ≡ set s.backends p b')
        × ((b'.current_conns ≡ b.current_conns) ⊎ (b'.current_conns ≡ inc_32 b.current_conns))
        × (b'.max_connections ≡ b.max_connections)
  unfolding dial_finish store
  finish-backends s s' p player (failed l) c b g h =
      let h1 = rw (g, dial_finish) at h in
      let (b', e, k) = >>=-eq-some (dial_failed s.unhealthy_after_failures b l) _ (s', c) h1 in
      let (conns, most) = dial_failed-conns s.unhealthy_after_failures b b' l e in
      (b', ground (arith, k), inl conns, most)
  finish-backends s s' p player (dialled l) c b g h =
      let h1 = rw (g, dial_finish) at h in
      let (b', e, k) = >>=-eq-some (dial_succeeded b player l) _ (s', c) h1 in
      let (conns, most) = dial_succeeded-conns b b' player l e in
      (b', ground (arith, k), inr conns, most)

module _ (fl : Floats) (s : ServerInfo fl.Float) (env : Environment fl.Float) where
  -- `Select` runs before anything else changes: the pointer is to an available backend.
  pub dial_select-available :
      (s1 : ServerInfo fl.Float) (p : ℕ)
      → dial_select fl s env ≡ some (s1, some p)
      → (s1.backends ≡ s.backends)
        × (b : Backend) × (get_elem? s.backends p ≡ some b)
        × (is_available b ≡ true)
  unfolding dial_select
  dial_select-available s1 p h = go (select fl s.strategy env (refs_from 0 s.backends)) refl
    where
      go :
          (x : Option (Option Ref))
          → select fl s.strategy env (refs_from 0 s.backends) ≡ x
          → (s1.backends ≡ s.backends)
            × (b : Backend) × (get_elem? s.backends p ≡ some b)
            × (is_available b ≡ true)
      go none e = let h' = rw (e, dial_select) at h in cc
      go (some none) e = let h' = rw (e, dial_select) at h in ground arith
      go (some (some r)) e =
          let (o, a) = select-Occurs fl env s.strategy (refs_from 0 s.backends) r e in
          let g = get_elem?-refs r s.backends o in
          let h' = rw (e, dial_select) at h in (ground arith, r.target, ground arith, a)

room_for_one :
    (b b' : Backend)
    → WithinLimit b
    → is_available b ≡ true
    → (b'.current_conns ≡ b.current_conns) ⊎ (b'.current_conns ≡ inc_32 b.current_conns)
    → b'.max_connections ≡ b.max_connections
    → WithinLimit b'
unfolding is_available
room_for_one b b' w a c m = ground (arith, w.fits, w.kept)

-- A dial that runs from its choice to its end with no other call between keeps every limit,
-- whatever the strategy and the answer.
dial-WithinLimit :
    (fl : Floats) (s s1 s2 : ServerInfo fl.Float) (env : Environment fl.Float) (p : ℕ)
    (player : Option String) (d : DialResult) (c : Option TrackedConn)
    → All WithinLimit s.backends
    → dial_select fl s env ≡ some (s1, some p)
    → dial_finish s1 p player d ≡ some (s2, c)
    → All WithinLimit s2.backends
dial-WithinLimit fl s s1 s2 env p player d c w h k =
    let (same, b, g, a) = dial_select-available fl s env s1 p h in
    let g1 : get_elem? s1.backends p ≡ some b = ap (λ bs. get_elem? bs p) same ∙ g in
    let (b', e, conns, most) = finish-backends s1 s2 p player d c b g1 k in
    subst (All WithinLimit) (sym (e ∙ ap (λ bs. set bs p b') same)) (
      All-set WithinLimit s.backends p b' w
        (room_for_one b b' (All-get_elem? WithinLimit s.backends p b w g) a conns most))

dialled-counts :
    {F : Type 0} (s s' : ServerInfo F) (p : ℕ) (player : Option String) (l : ℕ)
    (c : Option TrackedConn) (b : Backend)
    → get_elem? s.backends p ≡ some b
    → dial_finish s p player (dialled l) ≡ some (s', c)
    → (b' : Backend) × (get_elem? s'.backends p ≡ some b')
      × (b'.current_conns ≡ inc_32 b.current_conns)
unfolding dial_finish store
dialled-counts s s' p player l c b g h =
    let h1 = rw (g, dial_finish) at h in
    let (b', e, k) = >>=-eq-some (dial_succeeded b player l) _ (s', c) h1 in
    let (conns, most) = dial_succeeded-conns b b' player l e in
    let inside = get_elem?-set_self s.backends p b' (lt-length_of_get_elem? s.backends p b g) in
    (b', ground (arith, k, inside), conns)

-- Two dials that overlap: both choose the backend that has one place left, and both count there.
pub overlapping_dials-exceed :
    (fl : Floats) (s s1 s2 s3 s4 : ServerInfo fl.Float) (env env' : Environment fl.Float)
    (p l l' m : ℕ) (player player' : Option String) (c c' : Option TrackedConn) (b : Backend)
    → get_elem? s.backends p ≡ some b
    → b.max_connections ≡ pos m
    → b.current_conns + 1 ≡ m
    → m + 1 < two_31
    → dial_select fl s env ≡ some (s1, some p)
    → dial_select fl s1 env' ≡ some (s2, some p)
    → dial_finish s2 p player (dialled l) ≡ some (s3, c)
    → dial_finish s3 p player' (dialled l') ≡ some (s4, c')
    → (b' : Backend) × (get_elem? s4.backends p ≡ some b') × (b'.current_conns ≡ m + 1)
overlapping_dials-exceed fl s s1 s2 s3 s4 env env' p l l' m player player' c c' b g most one fits h
      h' k k' =
    let (same, _, _, _) = dial_select-available fl s env s1 p h in
    let (same', _, _, _) = dial_select-available fl s1 env' s2 p h' in
    let g2 : get_elem? s2.backends p ≡ some b = ap (λ bs. get_elem? bs p) (same' ∙ same) ∙ g in
    let (b3, g3, e3) = dialled-counts s2 s3 p player l c b g2 k in
    let (b4, g4, e4) = dialled-counts s3 s4 p player' l' c' b3 g3 k' in (b4, g4, omega arith)
