-- ===== src/DynamicServer/Starting/Entering.antt =====
-- A call that enters: it joins a start, or begins one.
use rms_gate.Base.{
  ℕ, ◌+◌, String, ◌≡◌, ◌⊎◌, inl, inr, Bool, false, Option, none, some, arith, ◌==◌, Bool-cases,
  Option-cases, str_eq, str_eq_iff, lookup, insert, lookup-insert,
}
use rms_gate.DynamicServer.Starting.{
  Phase, idle, working, leaving, waiting_for, returned, panicked, Calls, put, enter,
}
use rms_gate.DynamicServer.Starting.Invariant.{held, Inv}

held-cases :
    (q : Phase) (name : String) (o : ℕ)
    → held q ≡ some (name, o)
    → (q ≡ working name o) ⊎ ((answer : Option Bool) × (q ≡ leaving name o answer))
held-cases (working n o') name o e = inl (ground arith)
held-cases (leaving n o' a) name o e = inr (a, ground arith)
held-cases idle name o e = cc
held-cases (waiting_for p) name o e = cc
held-cases (returned r) name o e = cc
held-cases panicked name o e = cc

-- The two branches of `enter`.
join-Inv :
    (s : Calls) (i o : ℕ) (name : String)
    → s.phase i ≡ idle
    → lookup name s.starting_servers ≡ some o
    → Inv s
    → Inv (record s { phase = put i (waiting_for o) s.phase })
join-Inv s i o name at found v =
    let (k, mine) = v.owned name o found in
    record {
      owned = λ n p e. let (j, h) = v.owned n p e in (j, ground arith);
      listed = λ j n p e. ground (arith, v.listed j n p);
      unique = λ j k n n' p e f. ground (arith, v.unique j k n n' p);
      held_bound = λ j n p e. ground (arith, v.held_bound j n p);
      awaited_bound = λ j p e. ground (arith, v.awaited_bound j p, v.held_bound k name o mine);
      running = λ j n p e. ground (arith, v.running j n p);
      over = λ j n p a e. ground (arith, v.over j n p a);
      served = λ j p e. elim (Bool-cases (j == i)) [
        | inl same ↦ elim (held-cases (s.phase k) name o mine) [
          | inl q ↦ inr (k, name, ground arith)
          | inr (a, q) ↦ inl (ground (arith, v.over k name o a q))
        ]
        | inr other ↦ elim (v.served j p (ground arith)) [
          | inl d ↦ inl d
          | inr (l, n, q) ↦ inr (l, n, ground arith)
        ]
      ];
    }

abbrev started : Calls → ℕ → String → Calls
started s i name = record s {
  starting_servers = insert name s.next_object s.starting_servers;
  objects = put s.next_object (record { done = false; result = false }) s.objects;
  next_object = s.next_object + 1;
  phase = put i (working name s.next_object) s.phase;
}

start-Inv :
    (s : Calls) (i : ℕ) (name : String)
    → s.phase i ≡ idle
    → lookup name s.starting_servers ≡ none
    → Inv s
    → Inv (started s i name)
start-Inv s i name at free v = record {
  owned = λ n p e. elim (Bool-cases (str_eq name n)) [
    | inl same ↦ (
      i,
      ground (arith, lookup-insert name n s.next_object s.starting_servers, str_eq_iff name n),
    )
    | inr other ↦
        let e' : lookup n s.starting_servers ≡ some p =
          ground (arith, lookup-insert name n s.next_object s.starting_servers) in
        let (j, h) = v.owned n p e' in (j, ground arith)
  ];
  listed = λ j n p e. ground (
    arith,
    lookup-insert name n s.next_object s.starting_servers,
    v.listed j n p,
    str_eq_iff name n,
  );
  unique = λ j k n n' p e f.
      ground (arith, v.unique j k n n' p, v.held_bound j n p, v.held_bound k n' p);
  held_bound = λ j n p e. ground (arith, v.held_bound j n p);
  awaited_bound = λ j p e. ground (arith, v.awaited_bound j p);
  running = λ j n p e. ground (arith, v.running j n p, v.held_bound j n p);
  over = λ j n p a e. ground (arith, v.over j n p a, v.held_bound j n p);
  served = λ j p e. elim (v.served j p (ground arith)) [
    | inl d ↦ inl (ground (arith, v.awaited_bound j p))
    | inr (k, n, q) ↦ inr (k, n, ground arith)
  ];
}

pub enter-Inv :
    (s : Calls) (i : ℕ) (name : String) → s.phase i ≡ idle → Inv s → Inv (enter s i name)
unfolding enter
enter-Inv s i name at v = elim (Option-cases (lookup name s.starting_servers)) [
  | inl free ↦ rw (free, enter) (start-Inv s i name at free v)
  | inr (o, found) ↦ rw (found, enter) (join-Inv s i o name at found v)
]
