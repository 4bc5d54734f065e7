-- ===== src/DynamicServer/Races/Arming.antt =====
-- Timers that can still fire, and the map: the steps of `scheduleShutdown` keep what holds.
use rms_gate.Base.{
  ℕ, String, ◌≡◌, sym, ◌∙◌, inl, inr, none, some, arith, ◌==◌, Bool-cases, str_eq_iff, lookup,
  lookup-insert,
}
use rms_gate.DynamicServer.{Config, Manager, schedule_check, arm_timer, enter_timer}
use rms_gate.DynamicServer.Races.{idle, asked, entering, Threads}
use rms_gate.DynamicServer.Races.Invariant.{Inv}

pub schedule_check-alone :
    (cfg : Config) (m : Manager) (name uuid : String)
    → schedule_check cfg m name ≡ some uuid
    → lookup name m.shutdown_timers ≡ none
unfolding schedule_check
schedule_check-alone cfg m name uuid h = ground arith

pub asked-Inv :
    (s : Threads) (name uuid : String)
    → s.phase ≡ idle
    → lookup name s.manager.shutdown_timers ≡ none
    → Inv s
    → Inv (record s { phase = asked name uuid })
asked-Inv s name uuid p e v = record {
  covered = λ i n u a. elim (v.covered i n u a) [ inl f ↦ inl f | inr g ↦ absurd (cc (p, g)) ];
  asked_alone = λ n u q. ground (arith, q, e);
  entering_alone = λ n i q. cc;
  fired = v.fired;
  bounded = v.bounded;
  small = v.small;
}

pub idle-Inv :
    (s : Threads) (name uuid : String)
    → s.phase ≡ asked name uuid
    → Inv s
    → Inv (record s { phase = idle })
idle-Inv s name uuid p v = record {
  covered = λ i n u a. elim (v.covered i n u a) [ inl f ↦ inl f | inr g ↦ absurd (cc (p, g)) ];
  asked_alone = λ n u q. cc;
  entering_alone = λ n i q. cc;
  fired = v.fired;
  bounded = v.bounded;
  small = v.small;
}

pub armed-Inv :
    (s : Threads) (name uuid : String)
    → s.phase ≡ asked name uuid
    → Inv s
    → Inv (record s {
      manager = arm_timer s.manager name uuid;
      phase = entering name s.manager.next_timer;
    })
armed-Inv s name uuid p v = record {
  covered = λ i n u a. elim (Bool-cases (i == s.manager.next_timer)) [
    | inl new ↦ inr (ground (arith, a, new))
    | inr old ↦
        let before : s.manager.armed i ≡ some (n, u) = ground (arith, a, old) in
        elim (v.covered i n u before) [ inl f ↦ inl f | inr g ↦ absurd (cc (p, g)) ]
  ];
  asked_alone = λ n u q. cc;
  entering_alone = λ n i q. ground (arith, q, v.asked_alone name uuid p);
  fired = λ i n u l. ground (arith, v.fired i n u l, v.small i n u l);
  bounded = λ i n u a. elim (Bool-cases (i == s.manager.next_timer)) [
    | inl new ↦ ground (arith, new)
    | inr old ↦ omega (arith, v.bounded i n u (ground (arith, a, old)))
  ];
  small = λ i n u l. omega (arith, v.small i n u l);
}

pub entered-Inv :
    (s : Threads) (name : String) (t : ℕ)
    → s.phase ≡ entering name t
    → Inv s
    → Inv (record s { manager = enter_timer s.manager name t; phase = idle })
entered-Inv s name t p v = record {
  covered = λ i n u a. elim (v.covered i n u a) [
    | inl f ↦ inl (
        ground (
          arith,
          f,
          v.entering_alone name t p,
          lookup-insert name n t s.manager.shutdown_timers,
          str_eq_iff name n,
        ))
    | inr g ↦
        let same : entering name t ≡ entering n i = sym p ∙ g in
        inl (
          ground (arith, same, lookup-insert name n t s.manager.shutdown_timers, str_eq_iff name n))
  ];
  asked_alone = λ n u q. cc;
  entering_alone = λ n i q. cc;
  fired = v.fired;
  bounded = v.bounded;
  small = v.small;
}
