-- ===== src/LoadBalancer/History/Records.antt =====
-- The cache of statistics: what a sample and a loaded row change, and what they leave alone.
use rms_gate.Base.{
  ℕ, zero, suc, ◌+◌, ◌<◌, String, ◌≡◌, refl, ◌∙◌, inl, inr, false, ◌&&◌, Option, some, List, [],
  ◌∷◌, arith, ◌==◌, if◌then◌else◌, Bool-cases, Option-cases, length, get_elem?, set, length-set,
  get_elem?-set_self, get_elem?-set_ne, pos, pos_part, ltb_ℤ, leb_ℤ, ◌==ℤ◌, str_eq, str_eq_iff,
  lookup, insert, lookup-insert,
}
use mathlib.Core.Path.{subst}
use rms_gate.Float64.{Floats}
use rms_gate.LoadBalancer.History.{
  PeriodStats, BackendHistory, Cache, Row, slots_from, fresh_history, history_of, update_stats,
  record_sample, load_row,
}

module _ (fl : Floats) where
  open fl use {Float}

  -- Every backend in the cache has its 96 slots.
  abbrev pub IsComplete : Cache Float → Type 0
  IsComplete cache =
      (addr : String) (h : BackendHistory Float)
      → lookup addr cache ≡ some h
      → length h.period_stats ≡ 96

  length-slots_from : (i n : ℕ) → length (slots_from fl i n) ≡ n
  unfolding slots_from
  length-slots_from i zero = refl
  length-slots_from i (suc n) = omega (arith, length-slots_from (i + 1) n)

  pub history_of-IsComplete :
      (cache : Cache Float) (addr : String)
      → IsComplete cache
      → length (history_of fl cache addr).period_stats ≡ 96
  unfolding history_of fresh_history
  history_of-IsComplete cache addr c = elim (Option-cases (lookup addr cache)) [
    | inl e ↦ rw (e, history_of) (length-slots_from 0 96)
    | inr (h, e) ↦ rw (e, history_of) (c addr h e)
  ]

  get_elem?-some :
      {A : Type 0} (xs : List A) (i : ℕ) → i < length xs → (a : A) × (get_elem? xs i ≡ some a)
  get_elem?-some [] i h = absurd (omega arith)
  get_elem?-some (x ∷ xs) zero h = (x, refl)
  get_elem?-some (x ∷ xs) (suc i) h = get_elem?-some xs i (omega arith)

  -- What the cache has for a backend, a fresh history where it has none.
  unfoldable pub slot : Cache Float → String → ℕ → Option (PeriodStats Float)
  unfolding history_of
  slot cache addr i = get_elem? (history_of fl cache addr).period_stats i

  history_of-insert :
      (cache : Cache Float) (addr other : String) (h : BackendHistory Float)
      → history_of fl (insert addr h cache) other
        ≡ (if str_eq addr other then h else history_of fl cache other)
  unfolding history_of
  history_of-insert cache addr other h = ground (arith, lookup-insert addr other h cache)

  insert-IsComplete :
      (cache : Cache Float) (addr : String) (h : BackendHistory Float)
      → IsComplete cache
      → length h.period_stats ≡ 96
      → IsComplete (insert addr h cache)
  insert-IsComplete cache addr h c l other h' e =
      ground (arith, lookup-insert addr other h cache, c other h')

  -- The cache with one slot written.
  abbrev written : Cache Float → String → ℕ → PeriodStats Float → Cache Float
  written cache addr p v =
      insert addr (record { period_stats = set (history_of fl cache addr).period_stats p v }) cache

  get-set :
      (xs : List (PeriodStats Float)) (p i : ℕ) (v : PeriodStats Float)
      → p < length xs
      → get_elem? (set xs p v) i ≡ (if p == i then some v else get_elem? xs i)
  get-set xs p i v h = elim (Bool-cases (p == i)) [
    | inl e ↦
        let q : p ≡ i = ground arith in
        rw e (subst (λ j. get_elem? (set xs p v) j ≡ some v) q (get_elem?-set_self xs p v h))
    | inr e ↦ rw e (get_elem?-set_ne xs p i v (λ q. ground arith))
  ]

  slot-written :
      (cache : Cache Float) (addr : String) (p : ℕ) (v : PeriodStats Float)
      → IsComplete cache
      → p < 96
      → (other : String) (i : ℕ)
      → slot (written cache addr p v) other i
        ≡ (if str_eq addr other && (p == i) then some v else slot cache other i)
  unfolding slot
  slot-written cache addr p v c b other i =
      let xs = (history_of fl cache addr).period_stats in
      let new : BackendHistory Float = record { period_stats = set xs p v } in
      elim (Bool-cases (str_eq addr other)) [
        | inl e ↦
            let q : addr ≡ other = (str_eq_iff addr other).0 e in
            rw (history_of-insert cache addr other new, e, ← q)
              (get-set xs p i v (omega (arith, history_of-IsComplete cache addr c)))
        | inr e ↦ rw (history_of-insert cache addr other new, e)
      ]

  written-IsComplete :
      (cache : Cache Float) (addr : String) (p : ℕ) (v : PeriodStats Float)
      → IsComplete cache
      → IsComplete (written cache addr p v)
  written-IsComplete cache addr p v c =
      insert-IsComplete cache addr _ c (
        length-set (history_of fl cache addr).period_stats p v ∙ history_of-IsComplete cache addr c)

  -- With 96 slots for each backend and a period of the day, `Record` does not panic: it counts the
  -- sample in the slot of the backend and period, changes no other slot, and keeps the cache
  -- complete.
  pub record_sample_lem :
      (cache : Cache Float) (addr : String) (period : ℕ) (latency jitter : Float)
      → IsComplete cache
      → period < 96
      → (cache' : Cache Float) × (old : PeriodStats Float) × (slot cache addr period ≡ some old)
        × (record_sample fl cache addr period latency jitter
            ≡ some (cache', update_stats fl old latency jitter))
        × ((other : String) (i : ℕ)
            → slot cache' other i ≡ (
                if str_eq addr other && (period == i)
                then some (update_stats fl old latency jitter)
                else slot cache other i))
        × IsComplete cache'
  unfolding record_sample slot
  record_sample_lem cache addr period latency jitter c b =
      let xs = (history_of fl cache addr).period_stats in
      let (old, e) = get_elem?-some xs period (omega (arith, history_of-IsComplete cache addr c)) in
      let new = update_stats fl old latency jitter in
      (
        written cache addr period new,
        old,
        e,
        rw (e, record_sample),
        slot-written cache addr period new c b,
        written-IsComplete cache addr period new c,
      )

  -- Storing a history that is as it was changes no slot.
  slot-kept :
      (cache : Cache Float) (addr other : String) (i : ℕ)
      → slot
          (insert addr (record { period_stats = (history_of fl cache addr).period_stats }) cache)
          other
          i
        ≡ slot cache other i
  unfolding slot
  slot-kept cache addr other i = elim (Bool-cases (str_eq addr other)) [
    | inl e ↦
        let q : addr ≡ other = (str_eq_iff addr other).0 e in
        rw (history_of-insert cache addr other (history_of fl cache addr), e, q)
    | inr e ↦ rw (history_of-insert cache addr other (history_of fl cache addr), e)
  ]

  abbrev pub row_stats : Row fl → PeriodStats Float
  row_stats r = record {
    avg_latency = r.row_latency;
    avg_jitter = r.row_jitter;
    samples = r.row_samples;
    period_index = r.row_index;
    period_label = r.row_label;
  }

  -- A row of the database fills the slot that it names, and no other. One whose index is no
  -- period of the day fills none. Either way every backend has 96 slots afterwards.
  pub load_row_lem :
      (cache : Cache Float) (r : Row fl)
      → IsComplete cache
      → ((other : String) (i : ℕ)
          → i < 96
          → slot (load_row fl cache (some r)) other i ≡ (
              if str_eq r.backend_addr other && (r.row_index ==ℤ pos i)
              then some (row_stats r)
              else slot cache other i))
        × IsComplete (load_row fl cache (some r))
  unfolding load_row
  load_row_lem cache r c =
      let addr = r.backend_addr in
      let p : ℕ = pos_part r.row_index in
      elim (Bool-cases (leb_ℤ (pos 0) r.row_index && ltb_ℤ r.row_index (pos 96))) [
        | inl e ↦ (
          λ other i b.
              let same : (r.row_index ==ℤ pos i) ≡ (p == i) = ground arith in
              rw (e, load_row, same)
                (slot-written cache addr p (row_stats r) c (ground arith) other i),
          rw (e, load_row) (written-IsComplete cache addr p (row_stats r) c),
        )
        | inr e ↦ (
          λ other i b.
              let differs : (r.row_index ==ℤ pos i) ≡ false = ground arith in
              rw (e, load_row, differs) (slot-kept cache addr other i ∙ ground arith),
          rw (e, load_row)
              (insert-IsComplete cache addr (history_of fl cache addr) c
                (history_of-IsComplete cache addr c)),
        )
      ]
