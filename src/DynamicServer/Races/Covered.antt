-- ===== src/DynamicServer/Races/Covered.antt =====
-- Every timer that can still fire is covered by the map.
use rms_gate.Base.{ℕ, String, ◌≡◌, ◌≢◌, ◌⊎◌, inl, inr, some, List, lookup}
use rms_gate.DynamicServer.{Config, ShutdownConfig, new_manager, cancel_shutdown}
use rms_gate.DynamicServer.Timers.{cancelled_timer}
use rms_gate.DynamicServer.Races.{
  entering, Threads, started, Step, asks, gives_up, arms, enters, cancels, configures, starts,
  releases, Reach, here, next,
}
use rms_gate.DynamicServer.Races.Invariant.{Inv, cancelled-Inv, started-Inv, released-Inv}
use rms_gate.DynamicServer.Races.Arming.{
  schedule_check-alone, asked-Inv, idle-Inv, armed-Inv, entered-Inv,
}

configured-Inv :
    (s : Threads) (configs : List (String × ShutdownConfig))
    → Inv s
    → Inv (record s { manager = record s.manager { server_configs = configs } })
configured-Inv s configs v = record {
  covered = v.covered;
  asked_alone = v.asked_alone;
  entering_alone = v.entering_alone;
  fired = v.fired;
  bounded = v.bounded;
  small = v.small;
}

Step-Inv : {cfg : Config} {s t : Threads} → Step cfg s t → Inv s → Inv t
Step-Inv {cfg} (asks s name uuid p h) v =
    asked-Inv s name uuid p (schedule_check-alone cfg s.manager name uuid h) v
Step-Inv (gives_up s name uuid p) v = idle-Inv s name uuid p v
Step-Inv (arms s name uuid p) v = armed-Inv s name uuid p v
Step-Inv (enters s name t p) v = entered-Inv s name t p v
Step-Inv (cancels s name) v = cancelled-Inv s name v
Step-Inv (configures s configs) v = configured-Inv s configs v
Step-Inv (starts s t name uuid a) v = started-Inv s t name uuid a v
Step-Inv (releases s t name uuid l own) v = released-Inv s t name uuid l own v

start-Inv : Inv started
unfolding new_manager
start-Inv = record {
  covered = λ t n u a. cc;
  asked_alone = λ n u p. cc;
  entering_alone = λ n t p. cc;
  fired = λ t n u l. cc;
  bounded = λ t n u a. cc;
  small = λ t n u l. cc;
}

Reach-Inv : {cfg : Config} {s : Threads} → Reach cfg s → Inv s
Reach-Inv here = start-Inv
Reach-Inv (next r st) = Step-Inv st (Reach-Inv r)

-- In every interleaving of the idle check, cancelling, configuring and firing timers, lock by lock,
-- in which no function of a timer waits for the lock until the map has a later timer of its server:
-- a timer that can still fire is in the map under its server or is just being entered there, and
-- no two timers of a server can still fire.
pub one_timer :
    {cfg : Config} {s : Threads}
    → Reach cfg s
    → (t t' : ℕ) (name u u' : String) → s.manager.armed t ≡ some (name, u)
    → s.manager.armed t' ≡ some (name, u')
    → (t ≡ t') × ((lookup name s.manager.shutdown_timers ≡ some t) ⊎ (s.phase ≡ entering name t))
one_timer {s = s} r t t' name u u' a a' =
    let v = Reach-Inv r in
    let there = v.covered t name u a in
    let same : t ≡ t' = elim there [
      | inl f ↦ elim (v.covered t' name u' a') [
        | inl f' ↦ cc (f, f')
        | inr g' ↦ absurd (cc (f, v.entering_alone name t' g'))
      ]
      | inr g ↦ elim (v.covered t' name u' a') [
        | inl f' ↦ absurd (cc (f', v.entering_alone name t g))
        | inr g' ↦ cc (g, g')
      ]
    ] in
    (same, there)

-- In every such interleaving, cancelShutdown, which SetShutdownDelay ends with, leaves no timer of
-- the server that can still fire, unless the idle check has just armed one and not yet entered it.
-- The function of a timer that has fired before runs all the same.
pub cancel_complete :
    {cfg : Config} {s : Threads}
    → Reach cfg s
    → (name uuid : String) (t : ℕ) → s.phase ≢ entering name t
    → (cancel_shutdown s.manager name).armed t ≢ some (name, uuid)
cancel_complete {s = s} r name uuid t apart h =
    let v = Reach-Inv (next r (cancels s name)) in
    elim (v.covered t name uuid h) [
      | inl f ↦ cc (f, cancelled_timer s.manager name)
      | inr g ↦ apart g
    ]
