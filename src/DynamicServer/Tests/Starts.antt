-- ===== src/DynamicServer/Tests/Starts.antt =====
-- A server that comes up at the second attempt, and two calls that want it.
use rms_gate.Base.{
  ℕ, String, ◌≡◌, refl, ◌↔◌, ◌⊎◌, Bool, true, false, Option, some, [], ◌∷◌, arith, ◌==◌,
  if◌then◌else◌, pos, str_eq, lookup, insert,
}
use rms_gate.DynamicServer.Startup.{World, balanced, verdict, wait_for_server_ready}
use rms_gate.DynamicServer.Startup.Waiting.{
  FirstAt, Passed, Runs, Misses, Reaches, Allows, wait_for_server_ready_iff,
}
use rms_gate.DynamicServer.Starting.{
  Calls, working, returned, enter, complete, wake, no_calls, Reach, here, next, enters, result_of,
}
use rms_gate.DynamicServer.Starting.Callers.{one_starter, waiter_served}
use rms_gate.DynamicServer.Tests.{cfg}

abbrev slow_start : World
slow_start = record {
  cancelled = λ i. false;
  status = λ i. if i == 0 then some (pos 2) else some (pos 3);
  registered = true;
  cancelled_later = λ i. false;
  server = λ i.
      balanced
        (record { resolves = false; pings = true } ∷ record { resolves = true; pings = true } ∷ []);
}

wait_for_server_ready_iff_example :
    (answer : Bool) × (starts connects : ℕ) × (wait_for_server_ready cfg slow_start ≡ some answer)
    × Allows (pos 60) (pos 2) starts
    × Allows (pos 30) (pos 2) connects
    × ((answer ≡ true) ↔ (
        FirstAt (Passed slow_start) (Runs slow_start) 0 starts
        × (true ≡ true)
        × FirstAt (Misses slow_start) (Reaches slow_start) 0 connects))
wait_for_server_ready_iff_example = wait_for_server_ready_iff cfg slow_start (λ e. ground arith)

slow_start_ready : wait_for_server_ready cfg slow_start ≡ some true
unfolding wait_for_server_ready verdict
slow_start_ready = refl

-- Call 0 starts the server, call 1 waits for it.
abbrev two_calls : Calls
two_calls = enter (enter no_calls 0 "lobby") 1 "lobby"

two_calls_Reach : Reach two_calls
unfolding enter lookup insert str_eq
two_calls_Reach = next (next here (enters _ 0 "lobby" refl)) (enters _ 1 "lobby" refl)

one_starter_example : ◌≡◌ {A = ℕ} 0 0
unfolding enter lookup insert str_eq
one_starter_example = one_starter two_calls_Reach 0 0 "lobby" 0 0 refl refl

waiter_served_example :
    ((two_calls.objects 0).done ≡ true)
    ⊎ ((j : ℕ) × (name : String) × (two_calls.phase j ≡ working name 0)
        × ((answer : Option Bool)
            → let t = complete two_calls j name 0 answer in
              ((t.objects 0).done ≡ true) × ((wake t 1 0).phase 1 ≡ returned (result_of answer))))
unfolding enter lookup insert str_eq
waiter_served_example = waiter_served two_calls_Reach 1 0 refl

abbrev started_once : Calls
started_once = complete two_calls 0 "lobby" 0 (some true)
