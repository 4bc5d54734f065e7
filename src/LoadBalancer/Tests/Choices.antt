-- ===== src/LoadBalancer/Tests/Choices.antt =====
-- The strategies, and a server that dials.
use rms_gate.Base.{
  ℕ, ◌+◌, ◌≤◌, ◌<◌, String, ◌≡◌, refl, ◌⊎◌, inl, inr, false, some, List, [], ◌∷◌, arith, get_elem?,
  set, All, pos, ◌+ℤ◌, ◌-ℤ◌, ◌≤ℤ◌, str_eq, contains, add_name,
}
use rms_gate.Float64.Fixed.{fixed}
use rms_gate.LoadBalancer.Backend.{
  Backend, is_available, record_latency, record_success, add_player,
}
use rms_gate.LoadBalancer.Backend.Metrics.{relative_health_score, raw_score}
use rms_gate.LoadBalancer.Strategy.{
  round_robin, random, filter_available, select, after_select, refs_from, health_score_of,
}
use rms_gate.LoadBalancer.Strategy.Choice.{Picks, select_cases}
use rms_gate.LoadBalancer.Strategy.Best.{AmongAvailable, score_in, select_least, select_best}
use rms_gate.LoadBalancer.Strategy.Turns.{after_turns, round_robin_turn}
use rms_gate.LoadBalancer.Server.{
  dialled, dial_select, dial_finish, dial_succeeded, store, TrackedConn, ServerInfo,
}
use rms_gate.LoadBalancer.Server.Limit.{overlapping_dials-exceed}
use rms_gate.LoadBalancer.Server.Overlap.{Traffic, put, Reach, here, next, chooses, finishes}
use rms_gate.LoadBalancer.Server.Overlap.Counted.{Starts}
use rms_gate.LoadBalancer.Server.Overlap.Bound.{overlap_bounded}
use rms_gate.LoadBalancer.Server.{close}
use rms_gate.LoadBalancer.Server.Sessions.{dial-close}
use rms_gate.LoadBalancer.Tests.Data.{quiet, busy, off, ref, refs, env, server}

select_cases_example : Picks refs (select fixed random env refs)
unfolding filter_available is_available
select_cases_example = select_cases fixed random env refs (λ e. cc) (λ n e h. ground arith)

select_least_example : AmongAvailable (λ x. 2 ≤ x.target.current_conns) refs
unfolding select filter_available is_available
select_least_example = select_least fixed env refs (ref 1 quiet) (omega arith) refl

select_best_example :
    (pos 0 ≤ℤ score_in fixed env refs busy)
    × AmongAvailable (λ x. score_in fixed env refs x.target ≤ℤ score_in fixed env refs busy) refs
unfolding select filter_available is_available health_score_of relative_health_score raw_score ◌+ℤ◌
    ◌-ℤ◌
select_best_example = select_best fixed env refs (ref 2 busy) refl

round_robin_turn_example :
    (j : ℕ) × (r : _) × (j < 2)
    × (get_elem? (filter_available refs) 1 ≡ some r)
    × (select fixed (after_turns j (round_robin 6) refs) env refs ≡ some (some r))
unfolding filter_available is_available
round_robin_turn_example = round_robin_turn fixed env 6 1 refs (omega arith) (omega arith)

-- The server after a dial to the second backend, which took 40 ms.
abbrev joined : Backend
joined = record quiet {
  current_conns = 3;
  latency_window = 20 ∷ 30 ∷ 40 ∷ [];
  players = "cid" ∷ "ann" ∷ "bob" ∷ [];
}

abbrev joined_server : ServerInfo fixed.Float
joined_server = record server { backends = off ∷ joined ∷ busy ∷ [] }

abbrev conn_of : String → TrackedConn
conn_of n = record { backend = 1; player_name = n; closed = false }

abbrev twice_joined : ServerInfo fixed.Float
twice_joined = record server {
  backends =
      off
      ∷ record joined {
        current_conns = 4;
        latency_window = 30 ∷ 40 ∷ 40 ∷ [];
        players = "dan" ∷ "cid" ∷ "ann" ∷ "bob" ∷ [];
      }
      ∷ busy
      ∷ [];
}

limits : All (Starts 2) server.backends
limits = (
  record { known = omega arith; within = inr (omega arith); small = omega arith },
  (
    record { known = omega arith; within = inr (omega arith); small = omega arith },
    (record { known = omega arith; within = inl (omega arith); small = omega arith }, tt),
  ),
)

-- Both dials choose the second backend before either is counted.
abbrev crowded : Traffic fixed.Float
crowded = record { server = twice_joined; pending = put 1 0 (put 1 1 (put 1 2 (put 1 1 (λ p. 0)))) }

rush : Reach fixed 2 server crowded
unfolding dial_select select after_select is_available refs_from dial_finish dial_succeeded store
    record_latency record_success add_player add_name contains str_eq
rush =
    let first : Traffic fixed.Float = record { server = server; pending = put 1 1 (λ p. 0) } in
    let second : Traffic fixed.Float = record {
      server = server;
      pending = put 1 2 first.pending;
    } in
    let third : Traffic fixed.Float = record {
      server = joined_server;
      pending = put 1 1 second.pending;
    } in
    next
      (next
        (next (next here (chooses _ env server 1 refl (omega arith)))
          (chooses first env server 1 refl (omega arith)))
        (finishes second 1 1 (some "cid") (dialled 40_000_000) joined_server (some (conn_of "cid"))
          refl refl))
      (finishes third 1 0 (some "dan") (dialled 40_000_000) twice_joined (some (conn_of "dan")) refl
        refl)

overlap_bounded_example : (pos 3 ≤ℤ pos 0) ⊎ (4 + 1 ≤ 3 + 2)
overlap_bounded_example = overlap_bounded fixed (omega arith) limits rush 1 _ refl

overlapping_dials-exceed_example :
    (b' : Backend) × (get_elem? twice_joined.backends 1 ≡ some b') × (b'.current_conns ≡ 3 + 1)
unfolding dial_select select after_select is_available refs_from dial_finish dial_succeeded store
    record_latency record_success add_player add_name contains str_eq
overlapping_dials-exceed_example =
    overlapping_dials-exceed fixed server server server joined_server twice_joined env env 1
      40_000_000 40_000_000 3 (some "cid") (some "dan") (some (conn_of "cid"))
      (some (conn_of "dan")) quiet refl refl refl (omega arith) refl refl refl refl

dial-close_example :
    let r = close joined_server (conn_of "cid") in
    (w : List ℕ) × (r.0.backends
      ≡ set server.backends 1 (record quiet { fail_count = 0; latency_window = w }))
    × (close r.0 r.1 ≡ r)
unfolding dial_finish dial_succeeded store record_latency record_success add_player add_name
    contains str_eq
dial-close_example =
    dial-close server joined_server 1 40_000_000 (some "cid") (conn_of "cid") quiet refl refl
      (omega arith) refl
