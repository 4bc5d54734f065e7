-- ===== src/LoadBalancer/History.antt =====
-- internal/loadbalancer/history.go: latency statistics for each backend and each quarter of an
-- hour of the local day. A text is the list of its bytes. The wall clock is an argument, as hour
-- and minute; an index out of range is a panic, `none`.
pub mod Periods
pub mod Records
pub mod Samples
pub mod Adjustment
pub mod Saving
use rms_gate.Base.{
  ℕ, zero, suc, ◌+◌, ◌*◌, ◌/◌, ◌%◌, String, ◌&&◌, ◌||◌, Option, none, some, List, [], ◌∷◌, ◌++◌,
  if◌then◌else◌, get_elem?, set, lookup, insert, ℤ, pos, ◌+ℤ◌, ltb_ℤ, leb_ℤ, ◌==ℤ◌, pos_part,
}
use rms_gate.Float64.{Floats}

pub record PeriodStats (F : Type 0) : Type 0 where
  pub avg_latency : F
  pub avg_jitter : F
  pub samples : ℤ
  pub period_index : ℤ
  pub period_label : List ℕ

-- `[96]*PeriodStats`
pub record BackendHistory (F : Type 0) : Type 0 where
  pub period_stats : List (PeriodStats F)

-- The in-memory cache. The database is not under this repository's control: see `Row`.
abbrev pub Cache : Type 0 → Type 0
Cache F = List (String × BackendHistory F)

-- `getPeriodIndex`, for `now.Hour()` and `now.Minute()`.
unfoldable pub get_period_index : ℕ → ℕ → ℕ
get_period_index hour minute = hour * 4 + minute / 15

-- `%02d` of a number below 100.
abbrev pub two_digits : ℕ → List ℕ
two_digits n = (b'0' + n / 10) ∷ (b'0' + n % 10) ∷ []

unfoldable pub period_label_from_index : ℤ → List ℕ
period_label_from_index period =
    let start_min = pos_part period * 15 in
    let end_min = (start_min + 15) % (24 * 60) in
    if ltb_ℤ period (pos 0) || ltb_ℤ (pos 95) period
    then []
    else two_digits (start_min / 60)
      ++ (b':'
          ∷ (two_digits (start_min % 60)
              ++ (b'-' ∷ (two_digits (end_min / 60) ++ (b':' ∷ two_digits (end_min % 60))))))

module _ (fl : Floats) where
  open fl use {Float, of_int, decimal, fadd, fsub, fmul, fdiv, flt, to_int}

  abbrev empty_stats : ℕ → PeriodStats Float
  empty_stats i = record {
    avg_latency = of_int (pos 0);
    avg_jitter = of_int (pos 0);
    samples = pos 0;
    period_index = pos i;
    period_label = period_label_from_index (pos i);
  }

  -- `for i := range history.PeriodStats`: the slots from `i` on, `n` of them.
  unfoldable pub slots_from : ℕ → ℕ → List (PeriodStats Float)
  slots_from i zero = []
  slots_from i (suc n) = empty_stats i ∷ slots_from (i + 1) n

  unfoldable pub fresh_history : BackendHistory Float
  unfolding slots_from
  fresh_history = record { period_stats = slots_from 0 96 }

  unfoldable pub history_of : Cache Float → String → BackendHistory Float
  unfolding fresh_history
  history_of cache addr = elim (lookup addr cache) [ none ↦ fresh_history | some h ↦ h ]

  -- One sample of the running averages, with the weight 0.1 of new data.
  unfoldable pub update_stats : PeriodStats Float → Float → Float → PeriodStats Float
  update_stats s latency jitter =
      let ema = λ (new old : Float). fadd (fmul (decimal 1 1) new) (fmul (decimal 9 1) old) in
      if s.samples ==ℤ pos 0
      then record s { avg_latency = latency; avg_jitter = jitter; samples = s.samples +ℤ pos 1 }
      else record s {
        avg_latency = ema latency s.avg_latency;
        avg_jitter = ema jitter s.avg_jitter;
        samples = s.samples +ℤ pos 1;
      }

  -- `Record`: the new cache, and the statistics handed to the database writer.
  unfoldable pub record_sample :
      Cache Float → String → ℕ → Float → Float → Option (Cache Float × PeriodStats Float)
  unfolding history_of update_stats
  record_sample cache addr period latency jitter =
      let history = history_of cache addr in
      elim (get_elem? history.period_stats period) [
        | none ↦ none
        | some stats ↦ some (
          insert addr
              (record {
                period_stats = set history.period_stats period (update_stats stats latency jitter);
              })
              cache,
          update_stats stats latency jitter,
        )
      ]

  unfoldable pub get_period_stats : Cache Float → String → ℤ → Option (PeriodStats Float)
  get_period_stats cache addr period =
      if ltb_ℤ period (pos 0) || ltb_ℤ (pos 95) period then none else elim (lookup addr cache) [
        | none ↦ none
        | some h ↦ get_elem? h.period_stats (pos_part period)
      ]

  abbrev pub min_samples_for_use : ℤ
  min_samples_for_use = pos 20

  latency_points : Float → Float → Float
  latency_points score ratio =
      if flt ratio (decimal 7 1)
      then fadd score (of_int (pos 8))
      else if flt ratio (decimal 85 2)
      then fadd score (of_int (pos 4))
      else if flt (decimal 15 1) ratio
      then fsub score (of_int (pos 8))
      else if flt (decimal 12 1) ratio
      then fsub score (of_int (pos 4))
      else score

  jitter_points : Float → Float → Float
  jitter_points score ratio =
      if flt ratio (decimal 7 1)
      then fadd score (of_int (pos 4))
      else if flt (decimal 15 1) ratio
      then fsub score (of_int (pos 4))
      else score

  -- The two comparisons in turn: `score` after each of them.
  compare_latency : PeriodStats Float → Float → Float
  compare_latency stats latency =
      let zero_score = of_int (pos 0) in
      if flt zero_score stats.avg_latency && flt zero_score latency
      then latency_points zero_score (fdiv latency stats.avg_latency)
      else zero_score

  compare_jitter : PeriodStats Float → Float → Float → Float
  compare_jitter stats score jitter =
      let zero_score = of_int (pos 0) in
      if flt zero_score stats.avg_jitter && flt zero_score jitter
      then jitter_points score (fdiv jitter stats.avg_jitter)
      else score

  score_against : PeriodStats Float → Float → Float → ℤ
  score_against stats latency jitter =
      to_int (compare_jitter stats (compare_latency stats latency) jitter)

  -- `HistoricalScore`, at the period of the clock.
  unfoldable pub historical_score : Cache Float → String → ℕ → Float → Float → ℤ
  unfolding get_period_stats score_against compare_latency compare_jitter latency_points
      jitter_points
  historical_score cache addr period latency jitter =
      elim (get_period_stats cache addr (pos period)) [
        | none ↦ pos 0
        | some stats ↦
            if ltb_ℤ stats.samples min_samples_for_use
            then pos 0
            else score_against stats latency jitter
      ]

  -- A row of the table `period_stats`, as a query returns it; `none` is a row that does not scan.
  pub record Row : Type 0 where
    pub backend_addr : String
    pub row_index : ℤ
    pub row_label : List ℕ
    pub row_latency : Float
    pub row_jitter : Float
    pub row_samples : ℤ

  -- One turn of the loop of `loadFromDB`.
  unfoldable pub load_row : Cache Float → Option Row → Cache Float
  unfolding history_of
  load_row cache none = cache
  load_row cache (some r) =
      let history = history_of cache r.backend_addr in
      let slots = history.period_stats in
      let stats : PeriodStats Float = record {
        avg_latency = r.row_latency;
        avg_jitter = r.row_jitter;
        samples = r.row_samples;
        period_index = r.row_index;
        period_label = r.row_label;
      } in
      let stored : BackendHistory Float = record {
        period_stats =
            if leb_ℤ (pos 0) r.row_index && ltb_ℤ r.row_index (pos 96)
            then set slots (pos_part r.row_index) stats
            else slots;
      } in
      insert r.backend_addr stored cache

  unfoldable pub load_from_db : Cache Float → List (Option Row) → Cache Float
  unfolding load_row
  load_from_db cache [] = cache
  load_from_db cache (r ∷ rows) = load_from_db (load_row cache r) rows
