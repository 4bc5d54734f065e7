-- ===== src/DynamicServer/Starting/Invariant.antt =====
-- Who holds which start, and what the steps that follow a start keep.
use rms_gate.Base.{
  ℕ, ◌<◌, String, ◌≡◌, ◌⊎◌, inl, inr, Bool, true, false, Option, none, some, arith, ◌==◌,
  Bool-cases, str_eq_iff, lookup, lookup-delete,
}
use rms_gate.DynamicServer.Starting.{
  Phase, working, leaving, waiting_for, Calls, complete, leave, wake, no_calls, result_of,
}

-- The server and the object of a starter that has not left.
abbrev pub held : Phase → Option (String × ℕ)
held (working name o) = some (name, o)
held (leaving name o answer) = some (name, o)
held _ = none

-- The object that a call waits on.
abbrev pub awaited : Phase → Option ℕ
awaited (waiting_for o) = some o
awaited _ = none

pub record Inv (s : Calls) : Type 0 where
  pub owned :
      (name : String) (o : ℕ)
      → lookup name s.starting_servers ≡ some o
      → (i : ℕ) × (held (s.phase i) ≡ some (name, o))
  pub listed :
      (i : ℕ) (name : String) (o : ℕ)
      → held (s.phase i) ≡ some (name, o)
      → lookup name s.starting_servers ≡ some o
  pub unique :
      (i j : ℕ) (name name' : String) (o : ℕ)
      → held (s.phase i) ≡ some (name, o)
      → held (s.phase j) ≡ some (name', o)
      → i ≡ j
  pub held_bound :
      (i : ℕ) (name : String) (o : ℕ) → held (s.phase i) ≡ some (name, o) → o < s.next_object
  pub awaited_bound : (i o : ℕ) → awaited (s.phase i) ≡ some o → o < s.next_object
  pub running :
      (i : ℕ) (name : String) (o : ℕ) → s.phase i ≡ working name o → (s.objects o).done ≡ false
  pub over :
      (i : ℕ) (name : String) (o : ℕ) (answer : Option Bool)
      → s.phase i ≡ leaving name o answer
      → s.objects o ≡ record { done = true; result = result_of answer }
  pub served :
      (i o : ℕ)
      → awaited (s.phase i) ≡ some o
      → ((s.objects o).done ≡ true) ⊎ ((j : ℕ) × (name : String) × (s.phase j ≡ working name o))

pub no_calls-Inv : Inv no_calls
unfolding lookup
no_calls-Inv = record {
  owned = λ name o e. cc;
  listed = λ i name o e. cc;
  unique = λ i j name name' o e f. cc;
  held_bound = λ i name o e. cc;
  awaited_bound = λ i o e. cc;
  running = λ i name o e. cc;
  over = λ i name o answer e. cc;
  served = λ i o e. cc;
}

pub wake-Inv :
    (s : Calls) (i o : ℕ)
    → s.phase i ≡ waiting_for o
    → (s.objects o).done ≡ true
    → Inv s
    → Inv (wake s i o)
unfolding wake
wake-Inv s i o at closed v = record {
  owned = λ name p e. let (j, h) = v.owned name p e in (j, ground arith);
  listed = λ j name p e. ground (arith, v.listed j name p);
  unique = λ j k name name' p e f. ground (arith, v.unique j k name name' p);
  held_bound = λ j name p e. ground (arith, v.held_bound j name p);
  awaited_bound = λ j p e. ground (arith, v.awaited_bound j p);
  running = λ j name p e. ground (arith, v.running j name p);
  over = λ j name p answer e. ground (arith, v.over j name p answer);
  served = λ j p e. elim (v.served j p (ground arith)) [
    | inl d ↦ inl d
    | inr (k, name, q) ↦ inr (k, name, ground arith)
  ];
}

pub leave-Inv :
    (s : Calls) (i o : ℕ) (name : String) (answer : Option Bool)
    → s.phase i ≡ leaving name o answer
    → Inv s
    → Inv (leave s i name answer)
unfolding leave
leave-Inv s i o name answer at v =
    let mine : held (s.phase i) ≡ some (name, o) = ground (arith, at) in
    record {
      owned = λ n p e.
          let (j, h) = v.owned n p (ground (arith, lookup-delete name n s.starting_servers)) in
          (j, ground (arith, at, lookup-delete name n s.starting_servers, str_eq_iff name n));
      listed = λ j n p e. ground (
        arith,
        lookup-delete name n s.starting_servers,
        v.listed j n p,
        v.listed i name o mine,
        v.unique j i n name o,
        str_eq_iff name n,
      );
      unique = λ j k n n' p e f. ground (arith, v.unique j k n n' p);
      held_bound = λ j n p e. ground (arith, v.held_bound j n p);
      awaited_bound = λ j p e. ground (arith, v.awaited_bound j p);
      running = λ j n p e. ground (arith, v.running j n p);
      over = λ j n p a e. ground (arith, v.over j n p a);
      served = λ j p e. elim (v.served j p (ground arith)) [
        | inl d ↦ inl d
        | inr (k, n, q) ↦ inr (k, n, ground arith)
      ];
    }

pub complete-Inv :
    (s : Calls) (i o : ℕ) (name : String) (answer : Option Bool)
    → s.phase i ≡ working name o
    → Inv s
    → Inv (complete s i name o answer)
unfolding complete
complete-Inv s i o name answer at v =
    let mine : held (s.phase i) ≡ some (name, o) = ground (arith, at) in
    record {
      owned = λ n p e. let (j, h) = v.owned n p e in (j, ground arith);
      listed = λ j n p e. ground (arith, v.listed j n p, mine, v.listed i name o);
      unique = λ j k n n' p e f. ground (arith, v.unique j k n n' p);
      held_bound = λ j n p e. ground (arith, v.held_bound j n p, v.held_bound i name o);
      awaited_bound = λ j p e. ground (arith, v.awaited_bound j p);
      running = λ j n p e. ground (arith, v.running j n p, v.unique j i n name o);
      over = λ j n p a e. ground (arith, v.over j n p a, v.unique j i n name o);
      served = λ j p e. elim (v.served j p (ground arith)) [
        | inl d ↦ inl (ground arith)
        | inr (k, n, q) ↦ elim (Bool-cases (k == i)) [
          | inl same ↦ inl (ground (arith, q, at, same))
          | inr other ↦ inr (k, n, ground arith)
        ]
      ];
    }
