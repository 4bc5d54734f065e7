-- ===== src/LoadBalancer/History/Saving/Rows.antt =====
-- The rows of the database, and the cache that is loaded from them.
use rms_gate.Base.{
  ℕ, zero, suc, ◌+◌, ◌<◌, String, ◌≡◌, refl, sym, ap, ◌∙◌, inl, inr, Bool, true, ◌&&◌, Option, none,
  some, List, [], ◌∷◌, arith, if◌then◌else◌, Bool-cases, Option-cases, get_elem?, pos, eq_pos,
  ◌==ℤ◌, str_eq, lookup,
}
use mathlib.Core.Path.{subst}
use rms_gate.Float64.{Floats}
use rms_gate.LoadBalancer.History.{
  PeriodStats, Cache, Row, slots_from, fresh_history, history_of, update_stats, load_row,
  load_from_db,
}
use rms_gate.LoadBalancer.History.Records.{IsComplete, slot, row_stats, load_row_lem}
use rms_gate.LoadBalancer.History.Saving.{Database}

module _ (fl : Floats) where
  open fl use {Float}

  abbrev pub names : Row fl → String → ℕ → Bool
  names r addr i = str_eq r.backend_addr addr && (r.row_index ==ℤ pos i)

  -- The last row of a backend and period.
  unfoldable pub row_for : List (Option (Row fl)) → String → ℕ → Option (Row fl)
  row_for [] addr i = none
  row_for (none ∷ rows) addr i = row_for rows addr i
  row_for (some r ∷ rows) addr i =
      let own = if names r addr i then some r else none in
      elim (row_for rows addr i) [ none ↦ own | some x ↦ some x ]

  -- Every write succeeds: a query finds the row that was written, and all others as before.
  abbrev pub Keeps : {D : Type 0} → Database fl D → Type 0
  Keeps {D} base =
      (db : D) (r : Row fl) (addr : String) (i : ℕ)
      → row_for (base.select (base.replace db r)) addr i
        ≡ (if names r addr i then some r else row_for (base.select db) addr i)

  pub load-IsComplete :
      (rows : List (Option (Row fl))) (cache : Cache Float)
      → IsComplete fl cache
      → IsComplete fl (load_from_db fl cache rows)
  unfolding load_from_db load_row
  load-IsComplete [] cache c = c
  load-IsComplete (none ∷ rows) cache c = load-IsComplete rows cache c
  load-IsComplete (some r ∷ rows) cache c = load-IsComplete rows _ (load_row_lem fl cache r c).1

  pub slot-load :
      (rows : List (Option (Row fl))) (cache : Cache Float)
      → IsComplete fl cache
      → (addr : String) (i : ℕ) → i < 96
      → slot fl (load_from_db fl cache rows) addr i ≡ elim (row_for rows addr i) [
        | none ↦ slot fl cache addr i
        | some r ↦ some (row_stats fl r)
      ]
  unfolding load_from_db row_for
  slot-load [] cache c addr i b = refl
  slot-load (none ∷ rows) cache c addr i b = slot-load rows cache c addr i b
  slot-load (some r ∷ rows) cache c addr i b =
      let (one, c') = load_row_lem fl cache r c in
      let rest = slot-load rows (load_row fl cache (some r)) c' addr i b in
      ground (arith, rest, one addr i b)

  -- The statistics of a slot carry its index.
  abbrev pub IsIndexed : Cache Float → Type 0
  IsIndexed cache =
      (addr : String) (i : ℕ) (s : PeriodStats Float)
      → i < 96
      → slot fl cache addr i ≡ some s
      → s.period_index ≡ pos i

  pub empty : IsComplete fl []
  unfolding lookup
  empty addr h e = cc

  slots_from-index :
      (j n i : ℕ) (s : PeriodStats Float)
      → get_elem? (slots_from fl j n) i ≡ some s
      → s.period_index ≡ pos (j + i)
  unfolding slots_from
  slots_from-index j zero i s e = absurd (ground (arith, e))
  slots_from-index j (suc n) zero s e = ground (arith, e)
  slots_from-index j (suc n) (suc i) s e = slots_from-index (j + 1) n i s e ∙ ap pos (omega arith)

  empty-IsIndexed : IsIndexed []
  unfolding slot history_of fresh_history lookup
  empty-IsIndexed addr i s b e = slots_from-index 0 96 i s e ∙ ap pos (omega arith)

  row_for-names :
      (rows : List (Option (Row fl))) (addr : String) (i : ℕ) (r : Row fl)
      → row_for rows addr i ≡ some r
      → names r addr i ≡ true
  unfolding row_for
  row_for-names [] addr i r e = absurd (ground (arith, e))
  row_for-names (none ∷ rows) addr i r e = row_for-names rows addr i r e
  row_for-names (some x ∷ rows) addr i r e = elim (Option-cases (row_for rows addr i)) [
    | inl f ↦ elim (Bool-cases (names x addr i)) [
      | inl g ↦
          let same : x ≡ r = ground (arith, e, f, g) in subst (λ y. names y addr i ≡ true) same g
      | inr g ↦ absurd (ground (arith, e, f, g))
    ]
    | inr (y, f) ↦
        let same : y ≡ r = ground (arith, e, f) in
        subst (λ z. names z addr i ≡ true) same (row_for-names rows addr i y f)
  ]

  row_for-index :
      (rows : List (Option (Row fl))) (addr : String) (i : ℕ) (r : Row fl)
      → row_for rows addr i ≡ some r
      → r.row_index ≡ pos i
  row_for-index rows addr i r e =
      eq_pos r.row_index i (ground (arith, row_for-names rows addr i r e))

  pub load-IsIndexed : (rows : List (Option (Row fl))) → IsIndexed (load_from_db fl [] rows)
  load-IsIndexed rows addr i s b e =
      let found = slot-load rows [] empty addr i b in
      elim (Option-cases (row_for rows addr i)) [
        | inl f ↦ empty-IsIndexed addr i s b (ground (arith, e, found, f))
        | inr (r, f) ↦
            let same : row_stats fl r ≡ s = ground (arith, e, found, f) in
            ap (λ t. t.period_index) (sym same) ∙ row_for-index rows addr i r f
      ]

  pub update_stats-index :
      (s : PeriodStats Float) (latency jitter : Float)
      → (update_stats fl s latency jitter).period_index ≡ s.period_index
  unfolding update_stats
  update_stats-index s latency jitter = ground arith
