-- ===== src/LoadBalancer/Strategy/Choice.antt =====
-- What the strategies choose.
use rms_gate.Base.{
  ℕ, zero, suc, ◌+◌, ◌%◌, ◌^◌, ◌<◌, ◌≡◌, refl, ◌≢◌, ◌⊎◌, inl, inr, true, false, Option, none, some,
  List, [], ◌∷◌, arith, Bool-cases, Option-cases, length, get_elem?, All, Occurs,
}
use rms_gate.Float64.{Floats}
use rms_gate.LoadBalancer.Backend.{is_available}
use rms_gate.LoadBalancer.Strategy.Loops.{least_loop-Occurs, least_loop-some}
use rms_gate.LoadBalancer.Strategy.{
  Ref, Strategy, round_robin, least_connections, health_score, sequential, random, Environment,
  filter_available, least_loop, first_available, at_index, select,
}

-- The refs that pass the filter are refs of the list, and available.
pub filter-Occurs :
    (r : Ref) (refs : List Ref)
    → Occurs r (filter_available refs)
    → Occurs r refs × (is_available r.target ≡ true)
unfolding filter_available
filter-Occurs r (x ∷ refs) h = ground (arith, filter-Occurs r refs)
filter-Occurs r [] h = absurd h

abbrev pub Unavailable : Ref → Type 0
Unavailable r = is_available r.target ≡ false

pub filter-nil : (refs : List Ref) → filter_available refs ≡ [] → All Unavailable refs
unfolding filter_available
filter-nil [] h = tt
filter-nil (x ∷ refs) h = ground (arith, filter-nil refs)

pub get_elem?-Occurs :
    (r : Ref) (refs : List Ref) (i : ℕ) → get_elem? refs i ≡ some r → Occurs r refs
get_elem?-Occurs r [] i h = cc
get_elem?-Occurs r (x ∷ refs) zero h = inl (ground arith)
get_elem?-Occurs r (x ∷ refs) (suc i) h = inr (get_elem?-Occurs r refs i h)

pub first_available-Occurs :
    (r : Ref) (refs : List Ref)
    → first_available refs ≡ some r
    → Occurs r refs × (is_available r.target ≡ true)
unfolding first_available
first_available-Occurs r [] h = cc
first_available-Occurs r (x ∷ refs) h = ground (arith, first_available-Occurs r refs)

get_elem?-some :
    (refs : List Ref) (i : ℕ) → i < length refs → (r : Ref) × (get_elem? refs i ≡ some r)
get_elem?-some [] i h = absurd (omega arith)
get_elem?-some (x ∷ refs) zero h = (x, refl)
get_elem?-some (x ∷ refs) (suc i) h = get_elem?-some refs i (omega arith)

-- What is asked of the random numbers: one that is drawn lies below the bound that is asked for,
-- the number of backends to choose from.
abbrev pub DrawsBelow : Option ℕ → List Ref → Type 0
DrawsBelow draw refs =
    (n : ℕ)
    → draw ≡ some n
    → 0 < length (filter_available refs)
    → n < length (filter_available refs)

-- Nil if no backend is available, and otherwise an available one.
abbrev pub Picks : List Ref → Option (Option Ref) → Type 0
Picks refs res =
    (All Unavailable refs × (res ≡ some none))
    ⊎ ((r : Ref) × (res ≡ some (some r)) × Occurs r refs × (is_available r.target ≡ true))

-- An element of the filtered list will do.
Picks-of_Occurs :
    (refs : List Ref) (r : Ref) (res : Option (Option Ref))
    → res ≡ some (some r)
    → Occurs r (filter_available refs)
    → Picks refs res
Picks-of_Occurs refs r res e o = let found = filter-Occurs r refs o in inr (r, e, found.0, found.1)

at_index-Picks :
    (refs available : List Ref) (i : ℕ)
    → filter_available refs ≡ available
    → i < length available
    → Picks refs (at_index available i)
at_index-Picks refs available i e h =
    let (r, found) = get_elem?-some available i h in
    Picks-of_Occurs refs r (at_index available i) (ground arith)
      (rw e (get_elem?-Occurs r available i found))

loop-Picks :
    (refs available : List Ref) (res : Option Ref)
    → filter_available refs ≡ available
    → res ≢ none
    → ((r : Ref) → res ≡ some r → Occurs r available)
    → Picks refs (some res)
loop-Picks refs available none e h o = absurd (h refl)
loop-Picks refs available (some r) e h o = Picks-of_Occurs refs r _ refl (rw e (o r refl))

first_available-Picks : (refs : List Ref) → Picks refs (some (first_available refs))
unfolding first_available
first_available-Picks [] = inl (tt, refl)
first_available-Picks (x ∷ refs) = elim (Bool-cases (is_available x.target)) [
  | inl e ↦ rw (e, first_available) (inr (x, refl, inl refl, e))
  | inr e ↦
      rw (e, first_available)
        (elim (first_available-Picks refs) [
          | inl (u, q) ↦ inl ((refl, u), q)
          | inr (r, q, o, a) ↦ inr (r, q, inr o, a)
        ])
]

module _ (fl : Floats) where
  select-Picks :
      (s : Strategy) (env : Environment fl.Float) (refs available : List Ref)
      → filter_available refs ≡ available
      → s ≢ health_score
      → DrawsBelow env.draw refs
      → Picks refs (select fl s env refs)
  unfolding select
  select-Picks sequential env refs available e h d = first_available-Picks refs
  select-Picks (round_robin c) env refs [] e h d = inl (filter-nil refs e, rw (e, select))
  select-Picks (round_robin c) env refs (r ∷ rs) e h d =
      rw (e, select)
        (at_index-Picks refs (r ∷ rs) ((c + 1) % 2 ^ 64 % length (r ∷ rs)) e (omega arith))
  select-Picks least_connections env refs [] e h d = inl (filter-nil refs e, rw (e, select))
  select-Picks least_connections env refs (r ∷ rs) e h d =
      let conns = r.target.current_conns in
      let (x, found) = least_loop-some rs r conns in
      rw (e, select, least_loop)
        (loop-Picks refs (r ∷ rs) (least_loop rs (some r) conns) e (λ q. cc (found, q))
          (λ y q. ground (arith, least_loop-Occurs y rs (some r) conns q)))
  select-Picks random env refs [] e h d = inl (filter-nil refs e, rw (e, select))
  select-Picks random env refs (r ∷ rs) e h d = elim (Option-cases env.draw) [
    | inl q ↦ rw (e, select, q) (at_index-Picks refs (r ∷ rs) 0 e (omega arith))
    | inr (n, q) ↦
        rw (e, select, q) (at_index-Picks refs (r ∷ rs) n e (rw e at (d n q (rw e (omega arith)))))
  ]
  select-Picks health_score env refs available e h d = absurd (h refl)

  -- Every strategy but health-score answers, with an available backend of the list where there is
  -- one, and with nil where there is none; none of them panics.
  pub select_cases :
      (s : Strategy) (env : Environment fl.Float) (refs : List Ref)
      → s ≢ health_score
      → DrawsBelow env.draw refs
      → Picks refs (select fl s env refs)
  select_cases s env refs h d = select-Picks s env refs (filter_available refs) refl h d
