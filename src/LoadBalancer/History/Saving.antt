-- ===== src/LoadBalancer/History/Saving.antt =====
-- internal/loadbalancer/history.go: what `Record` leaves to be written, `savePeriodStats`, and what
-- `NewHistoryManager` reads back. The database is an argument. A write runs in its own goroutine at
-- some later time: it reads through its pointer what the slot holds then, and commits the row later.
pub mod Rows
pub mod Flushed
pub mod Restart
use rms_gate.Base.{
  ℕ, suc, ◌+◌, ◌<◌, String, ◌≡◌, Bool, false, ◌&&◌, Option, some, List, [], ◌∷◌, ◌++◌, ◌==◌,
  if◌then◌else◌, All, ◌==ℤ◌, str_eq,
}
use rms_gate.Float64.{Floats}
use rms_gate.LoadBalancer.History.{PeriodStats, Cache, Row, record_sample, load_from_db}
use rms_gate.LoadBalancer.History.Records.{slot}

module _ (fl : Floats) where
  open fl use {Float}

  -- `INSERT OR REPLACE` into the table `period_stats`, and what a query of all its rows returns.
  pub record Database (D : Type 0) : Type 0 where
    pub replace : D → Row fl → D
    pub select : D → List (Option (Row fl))

  -- The values that `Exec` is called with.
  abbrev pub row_of : String → PeriodStats Float → Row fl
  row_of addr s = record {
    backend_addr = addr;
    row_index = s.period_index;
    row_label = s.period_label;
    row_latency = s.avg_latency;
    row_jitter = s.avg_jitter;
    row_samples = s.samples;
  }

  -- The `Exec` of `savePeriodStats`, once it gets to the database.
  unfoldable pub save_period_stats : {D : Type 0} → Database D → D → Row fl → D
  save_period_stats base db r = base.replace db r

  -- `NewHistoryManager` on a database.
  unfoldable pub new_history_manager : {D : Type 0} → Database D → D → Cache Float
  new_history_manager base db = load_from_db fl [] (base.select db)

  -- The goroutines that have not read yet are counted for each backend and period; the rows that have
  -- been read and not committed stand in the order in which they were read.
  pub record System (D : Type 0) : Type 0 where
    pub cache : Cache Float
    pub db : D
    pub pending : String → ℕ → ℕ
    pub in_flight : List (Row fl)

  abbrev pub count_at : (String → ℕ → ℕ) → String → ℕ → ℕ → String → ℕ → ℕ
  count_at pending addr period n other i =
      if str_eq addr other && (period == i) then n else pending other i

  abbrev pub same_slot : Row fl → Row fl → Bool
  same_slot x r = str_eq x.backend_addr r.backend_addr && (x.row_index ==ℤ r.row_index)

  module _ {D : Type 0} (base : Database D) where
    pub data Step : System D → System D → Type 0 where
      records :
          (s : System D) (addr : String) (period : ℕ) (latency jitter : Float)
          (cache' : Cache Float) (stats : PeriodStats Float)
          → period < 96
          → record_sample fl s.cache addr period latency jitter ≡ some (cache', stats)
          → Step s (record s {
            cache = cache';
            pending = count_at s.pending addr period (s.pending addr period + 1);
          })
      reads :
          (s : System D) (addr : String) (period n : ℕ) (stats : PeriodStats Float)
          → period < 96
          → s.pending addr period ≡ suc n
          → slot fl s.cache addr period ≡ some stats
          → Step s (record s {
            in_flight = s.in_flight ++ (row_of addr stats ∷ []);
            pending = count_at s.pending addr period n;
          })
      -- No row of the same slot that was read earlier is still to be committed.
      commits :
          (s : System D) (front back : List (Row fl)) (r : Row fl)
          → s.in_flight ≡ front ++ (r ∷ back)
          → All (λ x. same_slot x r ≡ false) front
          → Step s (record s { db = save_period_stats base s.db r; in_flight = front ++ back })

    -- From a start on a database.
    pub data Reach (db : D) : System D → Type 0 where
      here : Reach db (record {
        cache = new_history_manager base db;
        db = db;
        pending = λ addr i. 0;
        in_flight = [];
      })
      next : {s t : System D} → Reach db s → Step s t → Reach db t
