-- ===== src/LoadBalancer/History/Saving/Restart.antt =====
-- What a restart finds.
use rms_gate.Base.{
  ℕ, ◌+◌, ◌<◌, String, ◌≡◌, refl, sym, ap, ◌∙◌, inl, inr, true, false, ◌&&◌, none, some, List, [],
  ◌∷◌, ◌++◌, arith, ◌==◌, if◌then◌else◌, Bool-cases, All, pos, str_eq, str_eq_iff,
}
use mathlib.Core.Path.{subst}
use rms_gate.Float64.{Floats}
use rms_gate.LoadBalancer.History.{PeriodStats, Cache, Row, update_stats, record_sample}
use rms_gate.LoadBalancer.History.Records.{IsComplete, slot, row_stats, record_sample_lem}
use rms_gate.LoadBalancer.History.Saving.{
  Database, row_of, save_period_stats, new_history_manager, count_at, System, same_slot, records,
  reads, commits, Reach, here, next,
}
use rms_gate.LoadBalancer.History.Saving.Flushed.{
  flushed, flushed-append, row_for-flushed, row_for-committed,
}
use rms_gate.LoadBalancer.History.Saving.Rows.{
  names, row_for, Keeps, IsIndexed, slot-load, empty, load-IsComplete, load-IsIndexed,
  update_stats-index,
}

module _ (fl : Floats) where
  open fl use {Float}

  record Inv {D : Type 0} (base : Database fl D) (s : System fl D) : Type 0 where
    complete : IsComplete fl s.cache
    indexed : IsIndexed fl s.cache
    agree :
        (addr : String) (i : ℕ)
        → i < 96
        → s.pending addr i ≡ 0
        → slot fl (new_history_manager fl base (flushed fl base s.db s.in_flight)) addr i
          ≡ slot fl s.cache addr i

  start-Inv :
      {D : Type 0} (base : Database fl D) (db : D)
      → Inv base (record {
        cache = new_history_manager fl base db;
        db = db;
        pending = λ addr i. 0;
        in_flight = [];
      })
  unfolding new_history_manager flushed
  start-Inv base db = record {
    complete = load-IsComplete fl (base.select db) [] (empty fl);
    indexed = load-IsIndexed fl (base.select db);
    agree = λ addr i b h. refl;
  }

  names_at :
      (addr other : String) (i period : ℕ) (stats : PeriodStats Float)
      → stats.period_index ≡ pos period
      → names fl (row_of fl addr stats) other i ≡ (str_eq addr other && (period == i))
  names_at addr other i period stats e = rw e (ground arith)

  slot-moved :
      (cache : Cache Float) (addr other : String) (period i : ℕ) (stats : PeriodStats Float)
      → (str_eq addr other && (period == i)) ≡ true
      → slot fl cache addr period ≡ some stats
      → slot fl cache other i ≡ some stats
  slot-moved cache addr other period i stats m e =
      let q : addr ≡ other = (str_eq_iff addr other).0 (ground (arith, m)) in
      let k : period ≡ i = ground (arith, m) in
      subst (λ j. slot fl cache other j ≡ some stats) k
        (subst (λ a. slot fl cache a period ≡ some stats) q e)

  module _ {D : Type 0} (base : Database fl D) where
    records-Inv :
        (s : System fl D) (addr : String) (period : ℕ) (latency jitter : Float)
        (cache' : Cache Float) (stats : PeriodStats Float)
        → period < 96
        → record_sample fl s.cache addr period latency jitter ≡ some (cache', stats)
        → Inv base s
        → Inv base (record s {
          cache = cache';
          pending = count_at fl s.pending addr period (s.pending addr period + 1);
        })
    records-Inv s addr period latency jitter cache' stats b e v =
        let (made, old, at_old, done, others, complete') =
          record_sample_lem fl s.cache addr period latency jitter v.complete b in
        let same : made ≡ cache' = ground (arith, e, done) in
        let slots =
          subst
            (λ c.
              (other : String) (i : ℕ)
              → slot fl c other i ≡ (
                  if str_eq addr other && (period == i)
                  then some (update_stats fl old latency jitter)
                  else slot fl s.cache other i))
            same others in
        record {
          complete = subst (λ c. IsComplete fl c) same complete';
          indexed = λ other i x c q. elim (Bool-cases (str_eq addr other && (period == i))) [
            | inl m ↦
                let new : update_stats fl old latency jitter ≡ x =
                  ground (arith, q, slots other i, m) in
                ap (λ t. t.period_index) (sym new)
                ∙ update_stats-index fl old latency jitter
                ∙ v.indexed addr period old b at_old
                ∙ ap pos (ground (arith, m))
            | inr m ↦ v.indexed other i x c (ground (arith, q, slots other i, m))
          ];
          agree = λ other i c h. elim (Bool-cases (str_eq addr other && (period == i))) [
            | inl m ↦ absurd (ground (arith, h, m))
            | inr m ↦ ground (arith, slots other i, m, h, v.agree other i c)
          ];
        }

    slot-start :
        (db : D) (addr : String) (i : ℕ)
        → i < 96
        → slot fl (new_history_manager fl base db) addr i
          ≡ elim (row_for fl (base.select db) addr i) [
            | none ↦ slot fl [] addr i
            | some r ↦ some (row_stats fl r)
          ]
    unfolding new_history_manager
    slot-start db addr i b = slot-load fl (base.select db) [] (empty fl) addr i b

    reads-Inv :
        (s : System fl D) (addr : String) (period n : ℕ) (stats : PeriodStats Float)
        → Keeps fl base
        → period < 96
        → slot fl s.cache addr period ≡ some stats
        → Inv base s
        → Inv base (record s {
          in_flight = s.in_flight ++ (row_of fl addr stats ∷ []);
          pending = count_at fl s.pending addr period n;
        })
    unfolding save_period_stats flushed
    reads-Inv s addr period n stats keeps b e v =
        let index = v.indexed addr period stats b e in
        let row = row_of fl addr stats in
        let db = flushed fl base s.db s.in_flight in
        record {
          complete = v.complete;
          indexed = v.indexed;
          agree = λ other i c h.
              let before = slot-start db other i c in
              let after = slot-start (base.replace db row) other i c in
              let found = keeps db row other i in
              let named : names fl row other i ≡ (str_eq addr other && (period == i)) =
                names_at addr other i period stats index in
              rw (flushed-append fl base s.db s.in_flight (row ∷ []))
                (elim (Bool-cases (str_eq addr other && (period == i))) [
                  | inl m ↦
                      let there : row_for fl (base.select (base.replace db row)) other i
                          ≡ some row =
                        ground (arith, found, named, m) in
                      let here : slot fl s.cache other i ≡ some stats =
                        slot-moved s.cache addr other period i stats m e in
                      ground (arith, after, there, here)
                  | inr m ↦
                      let there : row_for fl (base.select (base.replace db row)) other i
                          ≡ row_for fl (base.select db) other i =
                        ground (arith, found, named, m) in
                      let same : slot fl (new_history_manager fl base (base.replace db row)) other i
                          ≡ slot fl (new_history_manager fl base db) other i =
                        ground (arith, before, after, there) in
                      same ∙ v.agree other i c (ground (arith, h, m))
                ]);
        }

    -- Two databases with the same row for a slot.
    slot-same :
        (db db' : D) (addr : String) (i : ℕ)
        → i < 96
        → row_for fl (base.select db) addr i ≡ row_for fl (base.select db') addr i
        → slot fl (new_history_manager fl base db) addr i
          ≡ slot fl (new_history_manager fl base db') addr i
    slot-same db db' addr i b e = ground (arith, slot-start db addr i b, slot-start db' addr i b, e)

    commits-Inv :
        (s : System fl D) (front back : List (Row fl)) (r : Row fl)
        → Keeps fl base
        → s.in_flight ≡ front ++ (r ∷ back)
        → All (λ x. same_slot fl x r ≡ false) front
        → Inv base s
        → Inv base (record s { db = save_period_stats fl base s.db r; in_flight = front ++ back })
    commits-Inv s front back r keeps split first v = record {
      complete = v.complete;
      indexed = v.indexed;
      agree = λ addr i b h.
          slot-same _ _ addr i b (row_for-committed fl base keeps s.db front back r addr i first)
          ∙ ap (λ rs. slot fl (new_history_manager fl base (flushed fl base s.db rs)) addr i)
              (sym split)
          ∙ v.agree addr i b h;
    }

    Reach-Inv : {db : D} {s : System fl D} → Keeps fl base → Reach fl base db s → Inv base s
    Reach-Inv keeps here = start-Inv base _
    Reach-Inv keeps (next r (records s addr period latency jitter cache' stats b e)) =
        records-Inv s addr period latency jitter cache' stats b e (Reach-Inv keeps r)
    Reach-Inv keeps (next r (reads s addr period n stats b p e)) =
        reads-Inv s addr period n stats keeps b e (Reach-Inv keeps r)
    Reach-Inv keeps (next r (commits s front back row split first)) =
        commits-Inv s front back row keeps split first (Reach-Inv keeps r)

    -- With a database whose writes succeed, samples recorded in any order, and writes that read and
    -- commit at any later time, those of one backend and period in the order in which they read: a
    -- restart finds the statistics of every backend and period for which no write is still to
    -- read and no row that was read is still to be committed.
    pub restart_finds :
        {db : D} {s : System fl D}
        → Keeps fl base
        → Reach fl base db s
        → (addr : String) (i : ℕ) → i < 96
        → s.pending addr i ≡ 0
        → All (λ r. names fl r addr i ≡ false) s.in_flight
        → slot fl (new_history_manager fl base s.db) addr i ≡ slot fl s.cache addr i
    restart_finds {s = s} keeps r addr i b h clear =
        slot-same s.db (flushed fl base s.db s.in_flight) addr i b
          (sym (row_for-flushed fl base keeps s.db s.in_flight addr i clear))
        ∙ (Reach-Inv keeps r).agree addr i b h
