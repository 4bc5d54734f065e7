-- ===== src/LoadBalancer/Strategy/Best.antt =====
-- The choice of a strategy, by the strategy's own measure.
use rms_gate.Base.{
  ◌≤◌, ◌<◌, ◌≡◌, refl, ap, inl, inr, true, none, some, List, [], ◌∷◌, ◌++◌, arith, Bool-cases, All,
  ℤ, pos, negsuc, ◌≤ℤ◌, ltb_ℤ, two_31,
}
use rms_gate.Float64.{Floats}
use rms_gate.LoadBalancer.Backend.{Backend, is_available}
use rms_gate.LoadBalancer.Strategy.Loops.{least_loop-min, best_loop-none, best_loop-max_none}
use rms_gate.LoadBalancer.Strategy.Choice.{Unavailable}
use rms_gate.LoadBalancer.Strategy.{
  Ref, least_connections, health_score, sequential, Environment, filter_available, first_available,
  best_loop, least_loop, select, health_score_of,
}

-- Of all available refs.
abbrev pub AmongAvailable : (Ref → Type 0) → List Ref → Type 0
AmongAvailable P = All (λ r. is_available r.target ≡ true → P r)

All-filter : (P : Ref → Type 0) (refs : List Ref) → All P refs → All P (filter_available refs)
unfolding filter_available
All-filter P [] h = tt
All-filter P (x ∷ refs) h = elim (Bool-cases (is_available x.target)) [
  | inl e ↦ rw (e, filter_available) (h.0, All-filter P refs h.1)
  | inr e ↦ rw (e, filter_available) (All-filter P refs h.1)
]

AmongAvailable-of_filter :
    (P : Ref → Type 0) (refs : List Ref) → All P (filter_available refs) → AmongAvailable P refs
unfolding filter_available
AmongAvailable-of_filter P [] h = tt
AmongAvailable-of_filter P (x ∷ refs) h = elim (Bool-cases (is_available x.target)) [
  | inl e ↦
      let h' : P x × All P (filter_available refs) = rw (e, filter_available) at h in
      (λ _. h'.0, AmongAvailable-of_filter P refs h'.1)
  | inr e ↦
      let h' : All P (filter_available refs) = rw (e, filter_available) at h in
      (λ a. cc (a, e), AmongAvailable-of_filter P refs h')
]

module _ (fl : Floats) (env : Environment fl.Float) where
  least_of :
      (refs available : List Ref) (r : Ref)
      → filter_available refs ≡ available
      → All (λ x. x.target.current_conns < two_31) available
      → select fl least_connections env refs ≡ some (some r)
      → All (λ x. r.target.current_conns ≤ x.target.current_conns) available
  unfolding select least_loop
  least_of refs [] r e h s = tt
  least_of refs (x ∷ rs) r e (hx, hs) s =
      let s' : some (least_loop rs (some x) x.target.current_conns) ≡ some (some r) =
        rw (e, select) at s in
      least_loop-min r rs x hx hs (ground arith)

  -- The backend that least-connections picks has no more connections than any available one, as
  -- long as no count is negative.
  pub select_least :
      (refs : List Ref) (r : Ref)
      → All (λ x. x.target.current_conns < two_31) refs
      → select fl least_connections env refs ≡ some (some r)
      → AmongAvailable (λ x. r.target.current_conns ≤ x.target.current_conns) refs
  select_least refs r h s =
      AmongAvailable-of_filter _ refs
        (least_of refs (filter_available refs) r refl (All-filter _ refs h) s)

  -- Sequential picks the first available backend: those before it are not available.
  select_first :
      (refs : List Ref) (r : Ref)
      → select fl sequential env refs ≡ some (some r)
      → (front : List Ref) × (back : List Ref) × (refs ≡ front ++ (r ∷ back))
        × All Unavailable front
        × (is_available r.target ≡ true)
  unfolding select first_available
  select_first [] r s = cc
  select_first (x ∷ refs) r s = elim (Bool-cases (is_available x.target)) [
    | inl e ↦ ([], refs, ground arith, tt, ground arith)
    | inr e ↦
        let s' : some (first_available refs) ≡ some (some r) = rw (e, first_available) at s in
        let (front, back, q, u, a) = select_first refs r s' in
        (x ∷ front, back, ap (◌∷◌ x) q, (e, u), a)
  ]

  -- The score of a backend when health-score looks at `refs`.
  abbrev pub score_in : List Ref → Backend → ℤ
  score_in refs = health_score_of fl env (filter_available refs)

  best_of :
      (refs available : List Ref) (r : Ref)
      → filter_available refs ≡ available
      → select fl health_score env refs ≡ some (some r)
      → let score = health_score_of fl env available in
        (ltb_ℤ (negsuc 0) (score r.target) ≡ true)
        × All (λ x. score x.target ≤ℤ score r.target) available
  unfolding select
  best_of refs [] r e s = let s' : some none ≡ some (some r) = rw (e, select) at s in cc
  best_of refs (x ∷ rs) r e s =
      let score = health_score_of fl env (x ∷ rs) in
      let s' : some (best_loop score (x ∷ rs) none (negsuc 0)) ≡ some (some r) =
        rw (e, select) at s in
      best_loop-max_none score r (x ∷ rs) (negsuc 0) (ground arith)

  -- Health-score picks a backend whose score is not negative, and no available one has more.
  pub select_best :
      (refs : List Ref) (r : Ref)
      → select fl health_score env refs ≡ some (some r)
      → (pos 0 ≤ℤ score_in refs r.target)
        × AmongAvailable (λ x. score_in refs x.target ≤ℤ score_in refs r.target) refs
  select_best refs r s =
      let (bar, most) = best_of refs (filter_available refs) r refl s in
      (ground arith, AmongAvailable-of_filter _ refs most)

  none_best :
      (refs available : List Ref)
      → filter_available refs ≡ available
      → select fl health_score env refs ≡ some none
      → All (λ x. health_score_of fl env available x.target ≤ℤ negsuc 0) available
  unfolding select
  none_best refs [] e s = tt
  none_best refs (x ∷ rs) e s =
      let score = health_score_of fl env (x ∷ rs) in
      let s' : some (best_loop score (x ∷ rs) none (negsuc 0)) ≡ some none = rw (e, select) at s in
      best_loop-none score (x ∷ rs) (negsuc 0) (ground arith)

  -- Health-score answers nil only where every available backend has a negative score.
  select_best_nil :
      (refs : List Ref)
      → select fl health_score env refs ≡ some none
      → AmongAvailable (λ x. score_in refs x.target ≤ℤ negsuc 0) refs
  select_best_nil refs s =
      AmongAvailable-of_filter _ refs (none_best refs (filter_available refs) refl s)
