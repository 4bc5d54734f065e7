-- ===== src/DynamicServer/Starting/Callers.antt =====
-- One starter for each server, and what becomes of the calls that wait for it.
use rms_gate.Base.{ℕ, ◌<◌, String, ◌≡◌, refl, ◌⊎◌, inl, inr, Bool, true, Option, some, arith}
use rms_gate.DynamicServer.Starting.{
  working, waiting_for, returned, Calls, enter, complete, leave, wake, Step, enters, completes,
  leaves, wakes, Reach, here, next, result_of,
}
use rms_gate.DynamicServer.Starting.Invariant.{
  held, Inv, no_calls-Inv, wake-Inv, leave-Inv, complete-Inv,
}
use rms_gate.DynamicServer.Starting.Entering.{enter-Inv}

Step-Inv : {s t : Calls} → Step s t → Inv s → Inv t
Step-Inv (enters s i name at) v = enter-Inv s i name at v
Step-Inv (completes s i o name answer at) v = complete-Inv s i o name answer at v
Step-Inv (leaves s i o name answer at) v = leave-Inv s i o name answer at v
Step-Inv (wakes s i o at closed) v = wake-Inv s i o at closed v

Reach-Inv : {s : Calls} → Reach s → Inv s
Reach-Inv here = no_calls-Inv
Reach-Inv (next r st) = Step-Inv st (Reach-Inv r)

-- In every interleaving of calls of `EnsureServerRunning`, two calls that both start the same server
-- at the same time are one call.
pub one_starter :
    {s : Calls}
    → Reach s
    → (i j : ℕ) (name : String) (o o' : ℕ) → held (s.phase i) ≡ some (name, o)
    → held (s.phase j) ≡ some (name, o')
    → i ≡ j
one_starter {s} r i j name o o' h k =
    let v = Reach-Inv r in
    v.unique i j name name o h (ground (arith, k, v.listed i name o h, v.listed j name o' k))

-- A call that waits for a start can go on, or another call is still working on what it waits for:
-- with that call's answer the channel is closed, and the waiting call then returns the result of
-- that answer.
pub waiter_served :
    {s : Calls}
    → Reach s
    → (i o : ℕ) → s.phase i ≡ waiting_for o
    → ((s.objects o).done ≡ true)
      ⊎ ((j : ℕ) × (name : String) × (s.phase j ≡ working name o)
          × ((answer : Option Bool)
              → let t = complete s j name o answer in
                ((t.objects o).done ≡ true) × ((wake t i o).phase i ≡ returned (result_of answer))))
unfolding complete wake
waiter_served r i o at =
    let v = Reach-Inv r in
    elim (v.served i o (ground (arith, at))) [
      | inl d ↦ inl d
      | inr (j, name, q) ↦ inr (j, name, q, λ answer. (ground arith, ground arith))
    ]

-- What is written once the channel is closed stays: every call that waited returns the same.
result_kept :
    {s t : Calls}
    → Reach s
    → Step s t
    → (o : ℕ) → (s.objects o).done ≡ true
    → o < s.next_object
    → t.objects o ≡ s.objects o
unfolding enter complete leave wake
result_kept r (enters s i name at) o d b = ground arith
result_kept r (completes s i o' name answer at) o d b =
    let v = Reach-Inv r in ground (arith, v.running i name o' at)
result_kept r (leaves s i o' name answer at) o d b = refl
result_kept r (wakes s i o' at closed) o d b = refl
