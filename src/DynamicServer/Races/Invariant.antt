-- ===== src/DynamicServer/Races/Invariant.antt =====
-- Timers that can still fire, and the map: what holds, and that cancelling and firing keep it.
use rms_gate.Base.{
  ℕ, ◌<◌, String, ◌≡◌, refl, ◌⊎◌, inl, inr, none, some, List, arith, ◌==◌, if◌then◌else◌,
  Bool-cases, Option-cases, str_eq_iff, lookup, delete, lookup-delete,
}
use rms_gate.DynamicServer.{Manager, disarm, cancel_shutdown, release_timer}
use rms_gate.DynamicServer.Races.{asked, entering, Threads}

-- Where a timer that can fire is found.
abbrev pub Found : Threads → ℕ → String → Type 0
Found s t name = (lookup name s.manager.shutdown_timers ≡ some t) ⊎ (s.phase ≡ entering name t)

pub record Inv (s : Threads) : Type 0 where
  pub covered : (t : ℕ) (n u : String) → s.manager.armed t ≡ some (n, u) → Found s t n
  pub asked_alone : (n u : String) → s.phase ≡ asked n u → lookup n s.manager.shutdown_timers ≡ none
  pub entering_alone :
      (n : String) (t : ℕ) → s.phase ≡ entering n t → lookup n s.manager.shutdown_timers ≡ none
  pub fired : (t : ℕ) (n u : String) → s.late t ≡ some (n, u) → s.manager.armed t ≡ none
  pub bounded : (t : ℕ) (n u : String) → s.manager.armed t ≡ some (n, u) → t < s.manager.next_timer
  pub small : (t : ℕ) (n u : String) → s.late t ≡ some (n, u) → t < s.manager.next_timer

cancel-removed :
    (m : Manager) (name : String) (t : ℕ)
    → lookup name m.shutdown_timers ≡ some t
    → cancel_shutdown m name
      ≡ record m { shutdown_timers = delete name m.shutdown_timers; armed = disarm t m.armed }
unfolding cancel_shutdown
cancel-removed m name t e = rw (e, cancel_shutdown) refl

cancel-nothing :
    (m : Manager) (name : String)
    → lookup name m.shutdown_timers ≡ none
    → cancel_shutdown m name ≡ m
unfolding cancel_shutdown
cancel-nothing m name e = rw (e, cancel_shutdown) refl

-- A map without a name keeps the names that it lacked.
delete-none :
    (name n : String) (m : List (String × ℕ)) → lookup n m ≡ none → lookup n (delete name m) ≡ none
delete-none name n m e = ground (arith, lookup-delete name n m)

removed-Inv :
    (s : Threads) (name : String) (t : ℕ)
    → lookup name s.manager.shutdown_timers ≡ some t
    → Inv s
    → Inv (record s {
      manager = record s.manager {
        shutdown_timers = delete name s.manager.shutdown_timers;
        armed = disarm t s.manager.armed;
      };
    })
removed-Inv s name t e v = record {
  covered = λ i n u h.
      let before : s.manager.armed i ≡ some (n, u) = ground (arith, h) in
      elim (v.covered i n u before) [
        | inl f ↦ inl (
            ground
              (arith, h, f, e, lookup-delete name n s.manager.shutdown_timers, str_eq_iff name n))
        | inr g ↦ inr g
      ];
  asked_alone = λ n u p. delete-none name n _ (v.asked_alone n u p);
  entering_alone = λ n i p. delete-none name n _ (v.entering_alone n i p);
  fired = λ i n u l. ground (arith, v.fired i n u l);
  bounded = λ i n u h. v.bounded i n u (ground (arith, h));
  small = v.small;
}

pub cancelled-Inv :
    (s : Threads) (name : String)
    → Inv s
    → Inv (record s { manager = cancel_shutdown s.manager name })
cancelled-Inv s name v = elim (Option-cases (lookup name s.manager.shutdown_timers)) [
  | inl e ↦ rw (cancel-nothing s.manager name e) v
  | inr (t, e) ↦ rw (cancel-removed s.manager name t e) (removed-Inv s name t e v)
]

pub started-Inv :
    (s : Threads) (t : ℕ) (name uuid : String)
    → s.manager.armed t ≡ some (name, uuid)
    → Inv s
    → Inv (record {
      manager = record s.manager { armed = disarm t s.manager.armed };
      phase = s.phase;
      late = λ i. if i == t then some (name, uuid) else s.late i;
    })
started-Inv s t name uuid a v = record {
  covered = λ i n u h. v.covered i n u (ground (arith, h));
  asked_alone = v.asked_alone;
  entering_alone = v.entering_alone;
  fired = λ i n u l. elim (Bool-cases (i == t)) [
    | inl m ↦ ground (arith, m)
    | inr m ↦ ground (arith, m, l, v.fired i n u)
  ];
  bounded = λ i n u h. v.bounded i n u (ground (arith, h));
  small = λ i n u l. elim (Bool-cases (i == t)) [
    | inl m ↦ ground (arith, m, v.bounded t name uuid a)
    | inr m ↦ v.small i n u (ground (arith, m, l))
  ];
}

pub released-Inv :
    (s : Threads) (t : ℕ) (name uuid : String)
    → s.late t ≡ some (name, uuid)
    → (lookup name s.manager.shutdown_timers ≡ none)
      ⊎ (lookup name s.manager.shutdown_timers ≡ some t)
    → Inv s
    → Inv (record s {
      manager = release_timer s.manager name;
      late = λ i. if i == t then none else s.late i;
    })
released-Inv s t name uuid l own v = record {
  covered = λ i n u a. elim (v.covered i n u a) [
    | inl f ↦ inl (
        ground (
          arith,
          a,
          f,
          own,
          v.fired t name uuid l,
          lookup-delete name n s.manager.shutdown_timers,
          str_eq_iff name n,
        ))
    | inr g ↦ inr g
  ];
  asked_alone = λ n u p. delete-none name n _ (v.asked_alone n u p);
  entering_alone = λ n i p. delete-none name n _ (v.entering_alone n i p);
  fired = λ i n u h. v.fired i n u (ground (arith, h));
  bounded = v.bounded;
  small = λ i n u h. v.small i n u (ground (arith, h));
}
