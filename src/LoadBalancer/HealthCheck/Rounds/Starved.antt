-- ===== src/LoadBalancer/HealthCheck/Rounds/Starved.antt =====
-- A backend that panics each round.
use rms_gate.Base.{
  ℕ, suc, ◌+◌, String, ◌≡◌, refl, ap, ◌∙◌, inl, inr, true, false, some, List, [], ◌∷◌, ◌++◌, arith,
  Bool-cases, Option-cases, length, All, ℤ, pos, ◌≤ℤ◌, str_eq, str_eq_iff, lookup, insert,
  lookup-insert,
}
use rms_gate.Float64.{Floats}
use rms_gate.LoadBalancer.Backend.{Backend, set_last_check_time}
use rms_gate.LoadBalancer.Backend.Window.{record_latency-none_iff}
use rms_gate.LoadBalancer.History.{Cache}
use rms_gate.LoadBalancer.Server.{ServerInfo}
use rms_gate.LoadBalancer.HealthCheck.{HealthCheckConfig, Ping}
use rms_gate.LoadBalancer.HealthCheck.Rounds.{
  Tick, Table, run_answer, run_backend, run_backends, check_all_backends, ticker_interval,
  run_ticks, health_check_loop,
}

-- A backend whose first good ping panics.
pub record Stuck (b : Backend) : Type 0 where
  pub on : b.disabled ≡ false
  pub empty : b.latency_window ≡ []
  pub no_room : b.window_size ≤ℤ pos 0

-- `k` backends, a stuck one, and those behind it.
pub record Blocks (k : ℕ) (back backends : List Backend) : Type 0 where
  pub front : List Backend
  pub stuck : Backend
  pub split : backends ≡ front ++ (stuck ∷ back)
  pub place : length front ≡ k
  pub panics : Stuck stuck

abbrev Answers : (ℕ → Ping) → ℕ → Type 0
Answers pings j = (l : ℕ) × ((pings j).latency ≡ some l)

module _ (fl : Floats) (cfg : HealthCheckConfig fl.Float) where
  window :
      (b : Backend) (t : ℤ)
      → Stuck b
      → ((set_last_check_time b t).latency_window ≡ [])
        × ((set_last_check_time b t).window_size ≤ℤ pos 0)
  unfolding set_last_check_time
  window b t s = (s.empty, s.no_room)

  run_backend-Stuck :
      (ping : Ping) (b : Backend) (cache : Cache fl.Float) (l : ℕ)
      → ping.latency ≡ some l
      → Stuck b
      → run_backend fl cfg ping b cache
        ≡ record { state = (set_last_check_time b ping.ended, cache); panicked = true }
  unfolding run_backend
  run_backend-Stuck ping b cache l good s =
      let b1 = set_last_check_time b ping.ended in
      let panic = (record_latency-none_iff b1 l).1 (window b ping.ended s) in
      simp (s.on, run_answer, good, panic)

  -- The check of a stuck backend leaves it stuck and ends the walk.
  run_backends-Stuck :
      (pings : ℕ → Ping) (i : ℕ) (back : List Backend) (b : Backend) (cache : Cache fl.Float)
      → Answers pings i
      → Stuck b
      → Blocks 0 back (run_backends fl cfg pings i (b ∷ back) cache).state.0
  unfolding run_backends set_last_check_time
  run_backends-Stuck pings i back b cache (l, good) s =
      let e = run_backend-Stuck (pings i) b cache l good s in
      rw e record {
        front = [];
        stuck = set_last_check_time b (pings i).ended;
        split = refl;
        place = refl;
        panics = record { on = s.on; empty = s.empty; no_room = s.no_room };
      }

  Blocks-front :
      (k : ℕ) (x : Backend) (back bs : List Backend)
      → Blocks k back bs
      → Blocks (suc k) back (x ∷ bs)
  Blocks-front k x back bs v = record {
    front = x ∷ v.front;
    stuck = v.stuck;
    panics = v.panics;
    split = ap (λ l. x ∷ l) v.split;
    place = ap suc v.place;
  }

  run_backends-Blocks :
      (pings : ℕ → Ping) (i : ℕ) (front back : List Backend) (b : Backend) (cache : Cache fl.Float)
      → Answers pings (i + length front)
      → Stuck b
      → Blocks (length front) back (run_backends fl cfg pings i (front ++ (b ∷ back)) cache).state.0
  unfolding run_backends
  run_backends-Blocks pings i [] back b cache (l, good) s =
      run_backends-Stuck pings i back b cache (l, ap (λ j. (pings j).latency) (omega arith) ∙ good)
        s
  run_backends-Blocks pings i (x ∷ front) back b cache (l, good) s =
      let one = run_backend fl cfg (pings i) x cache in
      let good' = ap (λ j. (pings j).latency) (omega arith) ∙ good in
      let v = run_backends-Blocks pings (i + 1) front back b one.state.1 (l, good') s in
      elim (Bool-cases one.panicked) [
        | inl p ↦ rw p (
            Blocks-front (length front) one.state.0 back (front ++ (b ∷ back))
              record { front = front; stuck = b; split = refl; place = refl; panics = s })
        | inr p ↦ rw p (
            Blocks-front (length front) one.state.0 back
              (run_backends fl cfg pings (i + 1) (front ++ (b ∷ back)) one.state.1).state.0 v)
      ]

  walk-Blocks :
      (pings : ℕ → Ping) (k : ℕ) (back bs : List Backend) (cache : Cache fl.Float)
      → Answers pings k
      → Blocks k back bs
      → Blocks k back (run_backends fl cfg pings 0 bs cache).state.0
  walk-Blocks pings k back bs cache (l, good) v =
      let at = ap (λ j. (pings j).latency) (omega (arith, v.place)) ∙ good in
      rw v.split
        (rw⁻¹ v.place (run_backends-Blocks pings 0 v.front back v.stuck cache (l, at) v.panics))

-- The table holds a server of this name whose backends are blocked at `k`.
abbrev pub Starving :
    (fl : Floats) → String → ℕ → List Backend → List (String × ServerInfo fl.Float) → Type 0
Starving fl name k back servers =
    (s : ServerInfo fl.Float) × (lookup name servers ≡ some s) × Blocks k back s.backends

same_server :
    (fl : Floats) (n name : String) (k : ℕ) (back : List Backend) (s s1 : ServerInfo fl.Float)
    → (servers : Table fl) → n ≡ name
    → lookup n servers ≡ some s
    → lookup name servers ≡ some s1
    → Blocks k back s1.backends
    → Blocks k back s.backends
same_server fl n name k back s s1 servers e here there v = let same : s ≡ s1 = cc in rw same v

module _ (fl : Floats) (cfg : HealthCheckConfig fl.Float) (name : String) (k : ℕ) where
  -- The walk of one server, any server of the table.
  walked :
      (pings : String → ℕ → Ping) (back : List Backend) (n : String) (s : ServerInfo fl.Float)
      → (servers : Table fl) → (cache : Cache fl.Float) → Answers (pings name) k
      → lookup n servers ≡ some s
      → Starving fl name k back servers
      → Starving fl name k back (
          insert n
            (record s { backends = (run_backends fl cfg (pings n) 0 s.backends cache).state.0 })
            servers)
  walked pings back n s servers cache (l, good) here (s1, there, v) =
      let bs = run_backends fl cfg (pings n) 0 s.backends cache in
      elim (Bool-cases (str_eq n name)) [
        | inl same ↦
            let e : n ≡ name = (str_eq_iff n name).0 same in
            let good' = ap (λ m. (pings m k).latency) e ∙ good in
            (
              record s { backends = bs.state.0 },
              lookup-insert n name _ servers ∙ rw same refl,
              walk-Blocks fl cfg (pings n) k back s.backends cache (l, good')
                  (same_server fl n name k back s s1 servers e here there v),
            )
        | inr other ↦ (s1, lookup-insert n name _ servers ∙ rw other there, v)
      ]

  round-Starving :
      (pings : String → ℕ → Ping) (back : List Backend) (order : List String)
      → (servers : Table fl) → (cache : Cache fl.Float) → Answers (pings name) k
      → Starving fl name k back servers
      → Starving fl name k back (check_all_backends fl cfg pings order servers cache).state.0
  unfolding check_all_backends
  round-Starving pings back [] servers cache good v = v
  round-Starving pings back (n ∷ order) servers cache good v =
      elim (Option-cases (lookup n servers)) [
        | inl e ↦ rw (check_all_backends, e) (round-Starving pings back order servers cache good v)
        | inr (s, e) ↦
            let one = run_backends fl cfg (pings n) 0 s.backends cache in
            let w = walked pings back n s servers cache good e v in
            let later = round-Starving pings back order _ one.state.1 good w in
            rw (check_all_backends, e)
              (elim (Bool-cases one.panicked) [ inl p ↦ rw p w | inr p ↦ rw p later ])
      ]

  ticks-Starving :
      (back : List Backend) (ticks : List Tick) (s : Table fl × Cache fl.Float)
      → All (λ t. Answers (t.pings name) k) ticks
      → Starving fl name k back s.0
      → Starving fl name k back (run_ticks fl cfg ticks s).0.0
  unfolding run_ticks
  ticks-Starving back [] s good v = v
  ticks-Starving back (t ∷ ticks) s (good, others) v =
      let one = check_all_backends fl cfg t.pings t.order s.0 s.1 in
      ticks-Starving back ticks one.state others
        (round-Starving t.pings back t.order s.0 s.1 good v)

  -- A stuck backend at position k that answers every ping: whatever the order of each walk and
  -- however many ticks, it stays stuck at k and the backends behind it stay as they were.
  pub starved :
      (back : List Backend) (ticks : List Tick) (servers : Table fl) (cache : Cache fl.Float)
      → All (λ t. Answers (t.pings name) k) ticks
      → Starving fl name k back servers
      → Starving fl name k back (health_check_loop fl cfg ticks (servers, cache)).0
  unfolding health_check_loop
  starved back ticks servers cache good v = elim (Option-cases (ticker_interval fl cfg)) [
    | inl e ↦ rw (health_check_loop, e) v
    | inr (i, e) ↦ rw (health_check_loop, e) (ticks-Starving back ticks (servers, cache) good v)
  ]
