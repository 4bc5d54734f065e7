-- ===== src/LoadBalancer/Strategy/Sound.antt =====
-- Membership and availability of a chosen backend.
use rms_gate.Base.{
  ℕ, suc, ◌+◌, ◌-◌, ◌%◌, ◌^◌, ◌≡◌, refl, sym, ◌≢◌, inl, inr, true, none, some, List, [], ◌∷◌, arith,
  Option-cases, length, get_elem?, Occurs, negsuc, two_32,
}
use rms_gate.Float64.{Floats}
use rms_gate.LoadBalancer.Backend.{Backend, is_available}
use rms_gate.LoadBalancer.Strategy.Loops.{least_loop-Occurs, best_loop-Occurs}
use rms_gate.LoadBalancer.Strategy.Choice.{filter-Occurs, get_elem?-Occurs, first_available-Occurs}
use rms_gate.LoadBalancer.Strategy.{
  Ref, Strategy, round_robin, least_connections, health_score, sequential, random, refs_from,
  Environment, filter_available, best_loop, least_loop, select, health_score_of, at_index,
}

at_index-Occurs : (r : Ref) (rs : List Ref) (i : ℕ) → at_index rs i ≡ some (some r) → Occurs r rs
at_index-Occurs r rs i h = elim (Option-cases (get_elem? rs i)) [
  | inl e ↦ let h' : none ≡ some (some r) = rw (e, at_index) at h in cc
  | inr (x, e) ↦ get_elem?-Occurs r rs i (ground arith)
]

module _ (fl : Floats) (env : Environment fl.Float) where
  sound_of :
      (s : Strategy) (refs available : List Ref) (r : Ref)
      → filter_available refs ≡ available
      → s ≢ sequential
      → select fl s env refs ≡ some (some r)
      → Occurs r available
  unfolding select
  sound_of sequential refs available r e h q = absurd (h refl)
  sound_of (round_robin c) refs [] r e h q =
      let q' : some none ≡ some (some r) = rw (e, select) at q in cc
  sound_of (round_robin c) refs (x ∷ rs) r e h q =
      at_index-Occurs r (x ∷ rs) ((c + 1) % 2 ^ 64 % length (x ∷ rs)) (rw (e, select) at q)
  sound_of least_connections refs [] r e h q =
      let q' : some none ≡ some (some r) = rw (e, select) at q in cc
  sound_of least_connections refs (x ∷ rs) r e h q =
      let q' : some (least_loop (x ∷ rs) none (two_32 - 1)) ≡ some (some r) = rw (e, select) at q in
      ground (arith, least_loop-Occurs r (x ∷ rs) none (two_32 - 1))
  sound_of health_score refs [] r e h q =
      let q' : some none ≡ some (some r) = rw (e, select) at q in cc
  sound_of health_score refs (x ∷ rs) r e h q =
      let score = health_score_of fl env (x ∷ rs) in
      let q' : some (best_loop score (x ∷ rs) none (negsuc 0)) ≡ some (some r) =
        rw (e, select) at q in
      ground (arith, best_loop-Occurs score r (x ∷ rs) none (negsuc 0))
  sound_of random refs [] r e h q = let q' : some none ≡ some (some r) = rw (e, select) at q in cc
  sound_of random refs (x ∷ rs) r e h q = elim (Option-cases env.draw) [
    | inl d ↦ at_index-Occurs r (x ∷ rs) 0 (rw (e, select, d) at q)
    | inr (n, d) ↦ at_index-Occurs r (x ∷ rs) n (rw (e, select, d) at q)
  ]

  pub select-Occurs :
      (s : Strategy) (refs : List Ref) (r : Ref)
      → select fl s env refs ≡ some (some r)
      → Occurs r refs × (is_available r.target ≡ true)
  unfolding select
  select-Occurs sequential refs r q = first_available-Occurs r refs (ground arith)
  select-Occurs (round_robin c) refs r q =
      filter-Occurs r refs (sound_of (round_robin c) refs _ r refl (λ z. cc) q)
  select-Occurs least_connections refs r q =
      filter-Occurs r refs (sound_of least_connections refs _ r refl (λ z. cc) q)
  select-Occurs health_score refs r q =
      filter-Occurs r refs (sound_of health_score refs _ r refl (λ z. cc) q)
  select-Occurs random refs r q = filter-Occurs r refs (sound_of random refs _ r refl (λ z. cc) q)

-- A ref of the slice points at its backend.
refs_from-get :
    (r : Ref) (i : ℕ) (bs : List Backend)
    → Occurs r (refs_from i bs)
    → (k : ℕ) × (r.ptr ≡ i + k) × (get_elem? bs k ≡ some r.target)
unfolding refs_from
refs_from-get r i [] o = absurd o
refs_from-get r i (b ∷ bs) (inl e) = (0, ground (arith, sym e), ground (arith, sym e))
refs_from-get r i (b ∷ bs) (inr o) =
    let (k, p, g) = refs_from-get r (i + 1) bs o in (suc k, omega arith, g)

pub get_elem?-refs :
    (r : Ref) (bs : List Backend) → Occurs r (refs_from 0 bs) → get_elem? bs r.ptr ≡ some r.target
get_elem?-refs r bs o =
    let (k, p, g) = refs_from-get r 0 bs o in let p' : r.ptr ≡ k = omega arith in rw p' g
