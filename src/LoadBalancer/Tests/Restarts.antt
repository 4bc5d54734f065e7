-- ===== src/LoadBalancer/Tests/Restarts.antt =====
-- A sample that is recorded, read, committed and read back.
use rms_gate.Base.{
  ◌≡◌, refl, ◌&&◌, Option, none, some, List, [], ◌∷◌, arith, if◌then◌else◌, set, pos, ◌==ℤ◌, str_eq,
  str_eq_iff, lookup, insert,
}
use rms_gate.Float64.Fixed.{fixed}
use rms_gate.LoadBalancer.History.{
  Row, Cache, PeriodStats, slots_from, fresh_history, history_of, update_stats,
  period_label_from_index, record_sample, load_from_db,
}
use rms_gate.LoadBalancer.History.Records.{slot}
use rms_gate.LoadBalancer.History.Saving.{
  Database, new_history_manager, System, Reach, here, next, records, reads, commits, row_of,
  count_at, save_period_stats,
}
use rms_gate.LoadBalancer.History.Saving.Rows.{row_for, Keeps}
use rms_gate.LoadBalancer.History.Saving.Restart.{restart_finds}

-- The rows other than the one that is replaced, and it at the end.
replaced : List (Option (Row fixed)) → Row fixed → List (Option (Row fixed))
replaced [] r = some r ∷ []
replaced (none ∷ d) r = none ∷ replaced d r
replaced (some x ∷ d) r =
    let rest = replaced d r in
    if str_eq x.backend_addr r.backend_addr && (x.row_index ==ℤ r.row_index)
    then rest
    else some x ∷ rest

abbrev table : Database fixed (List (Option (Row fixed)))
table = record { replace = replaced; select = λ d. d }

table-Keeps : Keeps fixed table
unfolding replaced row_for
table-Keeps [] r addr i = ground arith
table-Keeps (none ∷ d) r addr i = table-Keeps d r addr i
table-Keeps (some x ∷ d) r addr i = ground (
  arith,
  table-Keeps d r addr i,
  str_eq_iff x.backend_addr r.backend_addr,
  str_eq_iff r.backend_addr addr,
  str_eq_iff x.backend_addr addr,
)

abbrev nothing : List (Option (Row fixed))
nothing = []

abbrev begun : System fixed (List (Option (Row fixed)))
begun = record {
  cache = new_history_manager fixed table nothing;
  db = nothing;
  pending = λ addr i. 0;
  in_flight = [];
}

abbrev stats : PeriodStats fixed.Float
stats =
    update_stats fixed
      (record {
        avg_latency = fixed.of_int (pos 0);
        avg_jitter = fixed.of_int (pos 0);
        samples = pos 0;
        period_index = pos 40;
        period_label = period_label_from_index (pos 40);
      })
      (pos 900) (pos 50)

abbrev recorded : Cache fixed.Float
recorded = ("a", record { period_stats = set (slots_from fixed 0 96) 40 stats }) ∷ []

abbrev unread : System fixed (List (Option (Row fixed)))
unread = record {
  cache = recorded;
  db = nothing;
  pending = count_at fixed (λ addr i. 0) "a" 40 1;
  in_flight = [];
}

abbrev unsaved : System fixed (List (Option (Row fixed)))
unsaved = record unread {
  pending = count_at fixed unread.pending "a" 40 0;
  in_flight = row_of fixed "a" stats ∷ [];
}

abbrev saved : System fixed (List (Option (Row fixed)))
saved = record unsaved {
  db = save_period_stats fixed table nothing (row_of fixed "a" stats);
  in_flight = [];
}

history : Reach fixed table nothing saved
unfolding new_history_manager load_from_db record_sample history_of fresh_history slots_from insert
    lookup update_stats str_eq slot
history =
    next
      (next (next here (records begun "a" 40 (pos 900) (pos 50) recorded stats (omega arith) refl))
        (reads unread "a" 40 0 stats (omega arith) refl refl))
      (commits unsaved [] [] (row_of fixed "a" stats) refl tt)

restart_finds_example :
    slot fixed
      (new_history_manager fixed table
        (save_period_stats fixed table nothing (row_of fixed "a" stats)))
      "a"
      40
    ≡ slot fixed recorded "a" 40
unfolding str_eq
restart_finds_example = restart_finds fixed table table-Keeps history "a" 40 (omega arith) refl tt
