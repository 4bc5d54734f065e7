-- ===== src/DynamicServer/Startup/Waiting.antt =====
-- When a server is taken to be ready.
use rms_gate.Base.{
  ℕ, zero, suc, ◌+◌, ◌≤◌, ◌<◌, ◌≡◌, refl, ap, ◌∙◌, ◌≢◌, ◌↔◌, ◌⊎◌, inl, inr, Bool, true, false, ◌&&◌,
  Option, some, arith, ◌==◌, Bool-cases, ℤ, pos, negsuc, pos_part,
}
use mathlib.Core.Path.{subst}
use rms_gate.DynamicServer.{Config}
use rms_gate.DynamicServer.Startup.{
  check_any_backend_reachable, connect_loop, World, Verdict, again, running, broken, verdict,
  wait_loop, quotient, check_server_connectivity, wait_for_server_ready,
}

-- Attempt `k` is the first of `n` from `i` on that is not passed over.
pub record FirstAt (passed : ℕ → Type 0) (stop : ℕ → Type 0) (i n : ℕ) : Type 0 where
  pub at : ℕ
  pub lower : i ≤ at
  pub upper : at < i + n
  pub before : (j : ℕ) → i ≤ j → j < at → passed j
  pub stops : stop at

abbrev pub Passed : World → ℕ → Type 0
Passed w j = (w.cancelled j ≡ false) × (verdict (w.status j) ≡ again)

abbrev pub Reaches : World → ℕ → Type 0
Reaches w j = (w.cancelled_later j ≡ false) × (check_any_backend_reachable (w.server j) ≡ true)

abbrev pub Misses : World → ℕ → Type 0
Misses w j = (w.cancelled_later j ≡ false) × (check_any_backend_reachable (w.server j) ≡ false)

abbrev pub Runs : World → ℕ → Type 0
Runs w j = (w.cancelled j ≡ false) × (verdict (w.status j) ≡ running)

FirstAt-here : {passed stop : ℕ → Type 0} (i n : ℕ) → stop i → FirstAt passed stop i (suc n)
FirstAt-here i n s = record {
  at = i;
  lower = omega arith;
  upper = omega arith;
  before = λ j lo hi. absurd (omega arith);
  stops = s;
}

FirstAt-later :
    {passed stop : ℕ → Type 0} (i n : ℕ)
    → passed i
    → FirstAt passed stop (i + 1) n
    → FirstAt passed stop i (suc n)
FirstAt-later {passed} i n p f = record {
  at = f.at;
  lower = omega (arith, f.lower);
  upper = omega (arith, f.upper);
  before = λ j lo hi. elim (Bool-cases (j == i)) [
    | inl e ↦ subst passed (ground (arith, e)) p
    | inr e ↦ f.before j (ground (arith, e, lo)) hi
  ];
  stops = f.stops;
}

FirstAt-cases :
    {passed stop : ℕ → Type 0} (i n : ℕ)
    → FirstAt passed stop i (suc n)
    → stop i ⊎ (passed i × FirstAt passed stop (i + 1) n)
FirstAt-cases {passed} {stop} i n f = elim (Bool-cases (f.at == i)) [
  | inl e ↦ inl (subst stop (ground (arith, e)) f.stops)
  | inr e ↦ inr (
    f.before i (omega arith) (ground (arith, e, f.lower)),
    record {
      at = f.at;
      lower = ground (arith, e, f.lower);
      upper = omega (arith, f.upper);
      before = λ j lo hi. f.before j (omega (arith, lo)) hi;
      stops = f.stops;
    },
  )
]

FirstAt-nil : {passed stop : ℕ → Type 0} (i : ℕ) → ¬ FirstAt passed stop i 0
FirstAt-nil i f = absurd (omega (arith, f.lower, f.upper))

connect_loop-finds :
    (w : World) (n i : ℕ)
    → connect_loop w.cancelled_later w.server n i ≡ true
    → FirstAt (Misses w) (Reaches w) i n
unfolding connect_loop
connect_loop-finds w zero i e = cc
connect_loop-finds w (suc n) i e = elim (Bool-cases (w.cancelled_later i)) [
  | inl c ↦ absurd (ground arith)
  | inr c ↦ elim (Bool-cases (check_any_backend_reachable (w.server i))) [
    | inl r ↦ FirstAt-here i n (c, r)
    | inr r ↦ FirstAt-later i n (c, r) (connect_loop-finds w n (i + 1) (ground arith))
  ]
]

connect_loop-found :
    (w : World) (n i : ℕ)
    → FirstAt (Misses w) (Reaches w) i n
    → connect_loop w.cancelled_later w.server n i ≡ true
unfolding connect_loop
connect_loop-found w zero i f = absurd (FirstAt-nil i f)
connect_loop-found w (suc n) i f = elim (FirstAt-cases i n f) [
  | inl (c, r) ↦ ground arith
  | inr ((c, r), g) ↦ ground (arith, connect_loop-found w n (i + 1) g)
]

Verdict-cases : (v : Verdict) → (v ≡ again) ⊎ (v ≡ running) ⊎ (v ≡ broken)
Verdict-cases again = inl refl
Verdict-cases running = inr (inl refl)
Verdict-cases broken = inr (inr refl)

wait_loop-finds :
    (w : World) (connect : Option Bool) (n i : ℕ)
    → wait_loop w.cancelled w.status connect n i ≡ some true
    → FirstAt (Passed w) (Runs w) i n × (connect ≡ some true)
unfolding wait_loop
wait_loop-finds w connect zero i e = cc
wait_loop-finds w connect (suc n) i e = elim (Bool-cases (w.cancelled i)) [
  | inl c ↦ absurd (ground arith)
  | inr c ↦ elim (Verdict-cases (verdict (w.status i))) [
    | inl v ↦
        let e' : wait_loop w.cancelled w.status connect n (i + 1) ≡ some true = ground arith in
        let (f, k) = wait_loop-finds w connect n (i + 1) e' in (FirstAt-later i n (c, v) f, k)
    | inr (inl v) ↦ (FirstAt-here i n (c, v), ground arith)
    | inr (inr v) ↦ absurd (ground arith)
  ]
]

wait_loop-found :
    (w : World) (connect : Option Bool) (n i : ℕ)
    → FirstAt (Passed w) (Runs w) i n
    → connect ≡ some true
    → wait_loop w.cancelled w.status connect n i ≡ some true
unfolding wait_loop
wait_loop-found w connect zero i f k = absurd (FirstAt-nil i f)
wait_loop-found w connect (suc n) i f k = elim (FirstAt-cases i n f) [
  | inl (c, r) ↦ ground arith
  | inr ((c, r), g) ↦ ground (arith, wait_loop-found w connect n (i + 1) g k)
]

-- The number of attempts that a timeout allows, in rounds of the poll interval.
abbrev pub Allows : ℤ → ℤ → ℕ → Type 0
Allows timeout poll n = (q : ℤ) × (quotient timeout poll ≡ some q) × (pos_part q ≡ n)

quotient-some : (a b : ℤ) → b ≢ pos 0 → (q : ℤ) × (quotient a b ≡ some q)
unfolding quotient
quotient-some a (pos zero) h = absurd (h refl)
quotient-some (pos a) (pos (suc b)) h = (_, refl)
quotient-some (negsuc a) (pos (suc b)) h = (_, refl)
quotient-some (pos a) (negsuc b) h = (_, refl)
quotient-some (negsuc a) (negsuc b) h = (_, refl)

wait_loop-ends :
    (w : World) (c : Bool) (n i : ℕ)
    → (b : Bool) × (wait_loop w.cancelled w.status (some c) n i ≡ some b)
unfolding wait_loop
wait_loop-ends w c zero i = (false, refl)
wait_loop-ends w c (suc n) i =
    let (b, e) = wait_loop-ends w c n (i + 1) in
    elim (Bool-cases (w.cancelled i)) [
      | inl d ↦ (false, ground arith)
      | inr d ↦ elim (Verdict-cases (verdict (w.status i))) [
        | inl v ↦ (b, ground (arith, e))
        | inr (inl v) ↦ (c, ground arith)
        | inr (inr v) ↦ (false, ground arith)
      ]
    ]

connectivity :
    (cfg : Config) (w : World) (q : ℤ)
    → quotient cfg.connectivity_timeout_seconds cfg.poll_interval_seconds ≡ some q
    → check_server_connectivity cfg w
      ≡ some (w.registered && connect_loop w.cancelled_later w.server (pos_part q) 0)
unfolding check_server_connectivity
connectivity cfg w q e = elim (Bool-cases w.registered) [
  | inl r ↦ rw (e, check_server_connectivity) (ground arith)
  | inr r ↦ rw (e, check_server_connectivity) (ground arith)
]

-- Both loops one after the other, with `n` and `m` attempts.
module _ (w : World) (n m : ℕ) (b : Bool) where
  abbrev connected : Bool
  connected = w.registered && connect_loop w.cancelled_later w.server m 0

  ready_finds :
      wait_loop w.cancelled w.status (some connected) n 0 ≡ some b
      → b ≡ true
      → FirstAt (Passed w) (Runs w) 0 n × (w.registered ≡ true) × FirstAt (Misses w) (Reaches w) 0 m
  ready_finds e t =
      let (f, k) = wait_loop-finds w (some connected) n 0 (e ∙ ap some t) in
      (f, ground (arith, k), connect_loop-finds w m 0 (ground (arith, k)))

  ready_found :
      wait_loop w.cancelled w.status (some connected) n 0 ≡ some b
      → FirstAt (Passed w) (Runs w) 0 n × (w.registered ≡ true) × FirstAt (Misses w) (Reaches w) 0 m
      → b ≡ true
  ready_found e (f, r, g) =
      let k : some connected ≡ some true = ground (arith, r, connect_loop-found w m 0 g) in
      ground (arith, e, wait_loop-found w (some connected) n 0 f k)

-- Where the poll interval is not 0, the wait ends, and it answers true if and only if the service
-- reports "running" in one of the attempts that the start timeout allows, every earlier one having
-- passed (an error, or stopped, stopping, starting), the proxy knows the server, and one of the
-- attempts that the connectivity timeout allows reaches a backend, the context not being done.
pub wait_for_server_ready_iff :
    (cfg : Config) (w : World)
    → cfg.poll_interval_seconds ≢ pos 0
    → (answer : Bool) × (starts connects : ℕ) × (wait_for_server_ready cfg w ≡ some answer)
      × Allows cfg.startup_timeout_seconds cfg.poll_interval_seconds starts
      × Allows cfg.connectivity_timeout_seconds cfg.poll_interval_seconds connects
      × ((answer ≡ true) ↔ (
          FirstAt (Passed w) (Runs w) 0 starts
          × (w.registered ≡ true)
          × FirstAt (Misses w) (Reaches w) 0 connects))
unfolding wait_for_server_ready
wait_for_server_ready_iff cfg w h =
    let (qs, es) = quotient-some cfg.startup_timeout_seconds cfg.poll_interval_seconds h in
    let (qc, ec) = quotient-some cfg.connectivity_timeout_seconds cfg.poll_interval_seconds h in
    let c = w.registered && connect_loop w.cancelled_later w.server (pos_part qc) 0 in
    let (b, e) = wait_loop-ends w c (pos_part qs) 0 in
    (
      b,
      pos_part qs,
      pos_part qc,
      rw (es, wait_for_server_ready) (rw (connectivity cfg w qc ec) e),
      (qs, es, refl),
      (qc, ec, refl),
      (
        ready_finds w (pos_part qs) (pos_part qc) b e,
        ready_found w (pos_part qs) (pos_part qc) b e,
      ),
    )
