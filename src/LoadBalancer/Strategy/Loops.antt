-- ===== src/LoadBalancer/Strategy/Loops.antt =====
-- The loops of least-connections and health-score.
use rms_gate.Base.{
  ℕ, ◌≤◌, ◌<◌, ◌≡◌, refl, ◌≢◌, ◌⊎◌, inl, inr, true, ◌||◌, Option, none, some, List, [], ◌∷◌, arith,
  if◌then◌else◌, Bool-cases, All, Occurs, ℤ, ◌≤ℤ◌, ltb_ℤ, two_31, lt_32,
}
use rms_gate.LoadBalancer.Backend.{Backend}
use rms_gate.LoadBalancer.Strategy.{Ref, least_loop, best_loop}

pub least_loop-Occurs :
    (r : Ref) (refs : List Ref) (best : Option Ref) (m : ℕ)
    → least_loop refs best m ≡ some r
    → (best ≡ some r) ⊎ Occurs r refs
unfolding least_loop
least_loop-Occurs r [] best m h = inl h
least_loop-Occurs r (x ∷ refs) best m h =
    let conns = x.target.current_conns in
    let better = lt_32 m 0 || lt_32 conns m in
    let ih =
      least_loop-Occurs r refs (if better then some x else best) (if better then conns else m) h in
    elim (Bool-cases better) [ inl e ↦ ground (arith, e, ih) | inr e ↦ ground (arith, e, ih) ]

-- Once a backend is held, one is held at the end.
pub least_loop-some :
    (refs : List Ref) (b : Ref) (m : ℕ) → (r : Ref) × (least_loop refs (some b) m ≡ some r)
unfolding least_loop
least_loop-some [] b m = (b, refl)
least_loop-some (x ∷ refs) b m = elim (Bool-cases (lt_32 m 0 || lt_32 x.target.current_conns m)) [
  | inl e ↦ rw e (least_loop-some refs x x.target.current_conns)
  | inr e ↦ rw e (least_loop-some refs b m)
]

pub best_loop-Occurs :
    (score : Backend → ℤ) (r : Ref) (refs : List Ref) (best : Option Ref) (m : ℤ)
    → best_loop score refs best m ≡ some r
    → (best ≡ some r) ⊎ Occurs r refs
unfolding best_loop
best_loop-Occurs score r [] best m h = inl h
best_loop-Occurs score r (x ∷ refs) best m h = elim (Bool-cases (ltb_ℤ m (score x.target))) [
  | inl e ↦ ground (arith, best_loop-Occurs score r refs (some x) (score x.target))
  | inr e ↦ ground (arith, best_loop-Occurs score r refs best m)
]

-- The loop of least-connections holds a backend with the fewest connections so far.
pub least_loop-min :
    (r : Ref) (refs : List Ref) (b : Ref)
    → b.target.current_conns < two_31
    → All (λ x. x.target.current_conns < two_31) refs
    → least_loop refs (some b) b.target.current_conns ≡ some r
    → (r.target.current_conns ≤ b.target.current_conns)
      × All (λ x. r.target.current_conns ≤ x.target.current_conns) refs
unfolding least_loop
least_loop-min r [] b hb hs e = ground arith
least_loop-min r (x ∷ refs) b hb (hx, hs) e =
    elim (Bool-cases
      (lt_32 b.target.current_conns 0 || lt_32 x.target.current_conns b.target.current_conns)) [
        | inl q ↦
            let e' : least_loop refs (some x) x.target.current_conns ≡ some r = rw q at e in
            ground (arith, least_loop-min r refs x hx hs e')
        | inr q ↦
            let e' : least_loop refs (some b) b.target.current_conns ≡ some r = rw q at e in
            ground (arith, least_loop-min r refs b hb hs e')
      ]

-- The loop of health-score holds the best score so far.
pub best_loop-max :
    (score : Backend → ℤ) (r : Ref) (refs : List Ref) (b : Ref)
    → best_loop score refs (some b) (score b.target) ≡ some r
    → (score b.target ≤ℤ score r.target) × All (λ x. score x.target ≤ℤ score r.target) refs
unfolding best_loop
best_loop-max score r [] b e = ground arith
best_loop-max score r (x ∷ refs) b e = elim (Bool-cases (ltb_ℤ (score b.target) (score x.target))) [
  | inl q ↦
      let e' : best_loop score refs (some x) (score x.target) ≡ some r = rw q at e in
      ground (arith, best_loop-max score r refs x e')
  | inr q ↦
      let e' : best_loop score refs (some b) (score b.target) ≡ some r = rw q at e in
      ground (arith, best_loop-max score r refs b e')
]

best_loop-ne-none :
    (score : Backend → ℤ) (refs : List Ref) (b : Ref) (m : ℤ)
    → best_loop score refs (some b) m ≢ none
unfolding best_loop
best_loop-ne-none score [] b m e = cc
best_loop-ne-none score (x ∷ refs) b m e = elim (Bool-cases (ltb_ℤ m (score x.target))) [
  | inl q ↦ best_loop-ne-none score refs x (score x.target) (rw q at e)
  | inr q ↦ best_loop-ne-none score refs b m (rw q at e)
]

-- Nothing is held at the end: no score is above the one to beat.
pub best_loop-none :
    (score : Backend → ℤ) (refs : List Ref) (m : ℤ)
    → best_loop score refs none m ≡ none
    → All (λ x. score x.target ≤ℤ m) refs
unfolding best_loop
best_loop-none score [] m e = tt
best_loop-none score (x ∷ refs) m e = elim (Bool-cases (ltb_ℤ m (score x.target))) [
  | inl q ↦
      let e' : best_loop score refs (some x) (score x.target) ≡ none = rw q at e in
      absurd (best_loop-ne-none score refs x (score x.target) e')
  | inr q ↦
      let e' : best_loop score refs none m ≡ none = rw q at e in
      ground (arith, best_loop-none score refs m e')
]

-- What is held at the end beats the first bar, and no score is above its own.
pub best_loop-max_none :
    (score : Backend → ℤ) (r : Ref) (refs : List Ref) (m : ℤ)
    → best_loop score refs none m ≡ some r
    → (ltb_ℤ m (score r.target) ≡ true) × All (λ x. score x.target ≤ℤ score r.target) refs
unfolding best_loop
best_loop-max_none score r [] m e = cc
best_loop-max_none score r (x ∷ refs) m e = elim (Bool-cases (ltb_ℤ m (score x.target))) [
  | inl q ↦
      let e' : best_loop score refs (some x) (score x.target) ≡ some r = rw q at e in
      ground (arith, best_loop-max score r refs x e')
  | inr q ↦
      let e' : best_loop score refs none m ≡ some r = rw q at e in
      ground (arith, best_loop-max_none score r refs m e')
]
