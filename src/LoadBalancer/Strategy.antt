-- ===== src/LoadBalancer/Strategy.antt =====
-- internal/loadbalancer/strategy.go: the five ways to choose a backend. A `*Backend` is a `Ref`,
-- its position in the server's list with the backend as it is when the strategy looks at it.
mod Loops
pub mod Choice
pub mod Best
pub mod Sound
pub mod Turns
use rms_gate.Base.{
  ℕ, ◌+◌, ◌-◌, ◌%◌, ◌^◌, String, ◌&&◌, ◌||◌, Option, none, some, List, [], ◌∷◌, if◌then◌else◌,
  length, get_elem?, str_eq, ℤ, pos, negsuc, ◌+ℤ◌, ltb_ℤ, lt_32, two_32, foldl,
}
use rms_gate.Float64.{Floats}
use rms_gate.LoadBalancer.Backend.{Backend, is_available}
use rms_gate.LoadBalancer.Backend.Metrics.{avg_latency, jitter, relative_health_score}
use rms_gate.LoadBalancer.History.{Cache, historical_score}

pub record Ref : Type 0 where
  pub ptr : ℕ
  pub target : Backend

-- The slice `backends`, from position `i` on.
unfoldable pub refs_from : ℕ → List Backend → List Ref
refs_from i [] = []
refs_from i (b ∷ bs) = record { ptr = i; target = b } ∷ refs_from (i + 1) bs

-- The round-robin strategy keeps an uint64.
pub data Strategy : Type 0 where
  round_robin : ℕ → Strategy
  least_connections health_score sequential random : Strategy

abbrev pub name : Strategy → String
name (round_robin c) = "round-robin"
name least_connections = "least-connections"
name health_score = "health-score"
name sequential = "sequential"
name random = "random"

unfoldable pub get_strategy : String → Strategy
get_strategy s =
    if str_eq s "round-robin"
    then round_robin 0
    else if str_eq s "least-connections"
    then least_connections
    else if str_eq s "health-score"
    then health_score
    else if str_eq s "sequential"
    then sequential
    else if str_eq s "random"
    then random
    else health_score

unfoldable pub filter_available : List Ref → List Ref
filter_available [] = []
filter_available (r ∷ rs) =
    let rest = filter_available rs in if is_available r.target then r ∷ rest else rest

-- The loop over `available` with `best` and `minConns`.
unfoldable pub least_loop : List Ref → Option Ref → ℕ → Option Ref
least_loop [] best min_conns = best
least_loop (r ∷ rs) best min_conns =
    let conns = r.target.current_conns in
    let better = lt_32 min_conns 0 || lt_32 conns min_conns in
    least_loop rs (if better then some r else best) (if better then conns else min_conns)

unfoldable pub first_available : List Ref → Option Ref
first_available [] = none
first_available (r ∷ rs) =
    let rest = first_available rs in if is_available r.target then some r else rest

module _ (fl : Floats) where
  open fl use {Float, of_int, flt, fle}

  -- `if x > 0 && (m < 0 || x < m) { m = x }`
  abbrev pub lower : Float → Float → Float
  lower m x = if flt (of_int (pos 0)) x && (flt m (of_int (pos 0)) || flt x m) then x else m

  -- The minimum of the positive values, or 1 if there is none.
  unfoldable pub least_positive : (Backend → Float) → List Ref → Float
  least_positive f rs =
      let m = foldl (λ m r. lower m (f r.target)) (of_int (negsuc 0)) rs in
      if fle m (of_int (pos 0)) then of_int (pos 1) else m

  -- The score of a backend: relative to the best ones, adjusted by its history, if there is one.
  unfoldable pub total_score : Option (Cache Float) → ℕ → Float → Float → Backend → ℤ
  total_score history period min_latency min_jitter b =
      let score = relative_health_score fl b min_latency min_jitter in
      elim history [
        | none ↦ score
        | some cache ↦
            score +ℤ historical_score fl cache b.addr period (avg_latency fl b) (jitter fl b)
      ]

-- The loop over `available` with `best` and `bestScore`.
unfoldable pub best_loop : (Backend → ℤ) → List Ref → Option Ref → ℤ → Option Ref
best_loop score [] best best_score = best
best_loop score (r ∷ rs) best best_score =
    let s = score r.target in
    let better = ltb_ℤ best_score s in
    best_loop score rs (if better then some r else best) (if better then s else best_score)

-- `rand.Int(rand.Reader, n)` is the argument `draw`: an error, or a number.
pub record Environment (F : Type 0) : Type 0 where
  pub history : Option (Cache F)
  pub period : ℕ
  pub draw : Option ℕ

-- `available[i]`, which panics out of range.
abbrev at_index : List Ref → ℕ → Option (Option Ref)
at_index rs i = elim (get_elem? rs i) [ none ↦ none | some r ↦ some (some r) ]

module _ (fl : Floats) where
  unfoldable pub health_score_of : Environment fl.Float → List Ref → Backend → ℤ
  unfolding least_positive total_score
  health_score_of env available =
      total_score fl env.history env.period (least_positive fl (avg_latency fl) available)
        (least_positive fl (jitter fl) available)

  -- `Select`: `none` is a panic, `some none` is nil.
  unfoldable pub select : Strategy → Environment fl.Float → List Ref → Option (Option Ref)
  unfolding least_loop first_available best_loop
  select sequential env refs = some (first_available refs)
  select (round_robin counter) env refs = elim (filter_available refs) [
    | [] ↦ some none
    | r ∷ rs ↦ at_index (r ∷ rs) ((counter + 1) % 2 ^ 64 % length (r ∷ rs))
  ]
  select least_connections env refs = elim (filter_available refs) [
    | [] ↦ some none
    | r ∷ rs ↦ some (least_loop (r ∷ rs) none (two_32 - 1))
  ]
  select health_score env refs = elim (filter_available refs) [
    | [] ↦ some none
    | r ∷ rs ↦ some (best_loop (health_score_of env (r ∷ rs)) (r ∷ rs) none (negsuc 0))
  ]
  select random env refs = elim (filter_available refs) [
    | [] ↦ some none
    | r ∷ rs ↦ elim env.draw [ none ↦ at_index (r ∷ rs) 0 | some n ↦ at_index (r ∷ rs) n ]
  ]

-- What `Select` leaves in the strategy: the counter moves on if a backend is available.
unfoldable pub after_select : Strategy → List Ref → Strategy
after_select (round_robin counter) refs = elim (filter_available refs) [
  | [] ↦ round_robin counter
  | r ∷ rs ↦ round_robin ((counter + 1) % 2 ^ 64)
]
after_select least_connections refs = least_connections
after_select health_score refs = health_score
after_select sequential refs = sequential
after_select random refs = random
