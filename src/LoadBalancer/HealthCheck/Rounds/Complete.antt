-- ===== src/LoadBalancer/HealthCheck/Rounds/Complete.antt =====
-- A round that no backend stops.
use rms_gate.Base.{
  ℕ, ◌<◌, String, ◌≡◌, refl, sym, ◌∙◌, ◌≢◌, inl, inr, false, none, some, List, [], ◌∷◌, arith,
  Bool-cases, Option-cases, All, Occurs, str_eq, str_eq_iff, lookup, insert, lookup-insert,
  lookup-insert_self,
}
use mathlib.Core.Option.{some-injective}
use rms_gate.Float64.{Floats}
use rms_gate.LoadBalancer.Backend.{Backend}
use rms_gate.LoadBalancer.History.{Cache}
use rms_gate.LoadBalancer.History.Records.{IsComplete}
use rms_gate.LoadBalancer.Server.{ServerInfo}
use rms_gate.LoadBalancer.HealthCheck.{HealthCheckConfig, Ping}
use rms_gate.LoadBalancer.HealthCheck.Total.{HasWindow}
use rms_gate.LoadBalancer.HealthCheck.Rounds.{Left, Table, check_all_backends}
use rms_gate.LoadBalancer.HealthCheck.Rounds.Walk.{Walked, run_backends-Walked}

module _ (fl : Floats) (cfg : HealthCheckConfig fl.Float) where
  abbrev pub Ready : Table fl → Type 0
  Ready servers =
      (name : String) (s : ServerInfo fl.Float)
      → lookup name servers ≡ some s
      → All HasWindow s.backends

  -- What a round leaves: no panic, each server of `order` walked, any other as it was.
  pub record Whole (pings : String → ℕ → Ping) (order : List String) (servers : Table fl)
      (r : Left (Table fl × Cache fl.Float)) : Type 0 where
    pub completes : r.panicked ≡ false
    pub ready : Ready r.state.0
    pub history : IsComplete fl r.state.1
    pub visited :
        (name : String) (s : ServerInfo fl.Float)
        → Occurs name order
        → lookup name servers ≡ some s
        → (bs' : List Backend) × (lookup name r.state.0 ≡ some (record s { backends = bs' }))
          × Walked fl cfg (pings name) 0 s.backends bs'
    pub untouched :
        (name : String) → ¬ Occurs name order → lookup name r.state.0 ≡ lookup name servers

  -- A name of the order that the table lacks.
  Whole-skip :
      (pings : String → ℕ → Ping) (n : String) (order : List String) (servers : Table fl)
      → (r : Left (Table fl × Cache fl.Float)) → lookup n servers ≡ none
      → Whole pings order servers r
      → Whole pings (n ∷ order) servers r
  Whole-skip pings n order servers r gone w = record {
    completes = w.completes;
    ready = w.ready;
    history = w.history;
    visited = λ name s at e. elim at [ inl same ↦ cc | inr later ↦ w.visited name s later e ];
    untouched = λ name away. w.untouched name (λ h. away (inr h));
  }

  Ready-insert :
      (n : String) (s : ServerInfo fl.Float) (bs : List Backend) (servers : Table fl)
      → Ready servers
      → All HasWindow bs
      → Ready (insert n (record s { backends = bs }) servers)
  Ready-insert n s bs servers ready w name s' e =
      let at = lookup-insert n name (record s { backends = bs }) servers in
      elim (Bool-cases (str_eq n name)) [
        | inl same ↦
            let now : record s { backends = bs } ≡ s' =
              some-injective _ _ (sym (at ∙ rw same refl) ∙ e) in
            rw⁻¹ now w
        | inr other ↦ ready name s' (sym (at ∙ rw other refl) ∙ e)
      ]

  lookup-insert_other :
      (n name : String) (s : ServerInfo fl.Float) (servers : Table fl)
      → n ≢ name
      → lookup name (insert n s servers) ≡ lookup name servers
  lookup-insert_other n name s servers apart =
      ground (arith, lookup-insert n name s servers, str_eq_iff n name)

  -- A server that is walked, and is not met again.
  Whole-walk :
      (pings : String → ℕ → Ping) (n : String) (order : List String) (servers : Table fl)
      → (s : ServerInfo fl.Float) → (bs' : List Backend) → (r : Left (Table fl × Cache fl.Float))
      → lookup n servers ≡ some s
      → ¬ Occurs n order
      → Walked fl cfg (pings n) 0 s.backends bs'
      → Whole pings order (insert n (record s { backends = bs' }) servers) r
      → Whole pings (n ∷ order) servers r
  Whole-walk pings n order servers s bs' r here once walk w =
      let s' = record s { backends = bs' } in
      record {
        completes = w.completes;
        ready = w.ready;
        history = w.history;
        visited = λ name s2 at e. elim at [
          | inl same ↦
              let found : s ≡ s2 = some-injective _ _ (sym here ∙ rw same e) in
              rw⁻¹ (same, found) (bs', w.untouched n once ∙ lookup-insert_self n s' servers, walk)
          | inr later ↦
              let apart : n ≢ name = λ h. once (rw h later) in
              w.visited name s2 later (lookup-insert_other n name s' servers apart ∙ e)
        ];
        untouched = λ name away.
            w.untouched name (λ h. away (inr h))
            ∙ lookup-insert_other n name s' servers (λ h. away (inl h));
      }

  abbrev pub Once : List String → Type 0
  Once [] = Unit
  Once (n ∷ names) = (¬ Occurs n names) × Once names

  -- With pings within the day, an order that names no server twice, a complete history, and windows
  -- that have room or samples, a round does not panic: every server of the order has each backend
  -- as its ping leaves it, the others stay, and windows and history are fit for the next round.
  pub round-Whole :
      (pings : String → ℕ → Ping) (order : List String) (servers : Table fl)
      (cache : Cache fl.Float)
      → ((name : String) (j : ℕ) → (pings name j).period < 96)
      → Once order
      → Ready servers
      → IsComplete fl cache
      → Whole pings order servers (check_all_backends fl cfg pings order servers cache)
  unfolding check_all_backends
  round-Whole pings [] servers cache day once ready c = record {
    completes = refl;
    ready = ready;
    history = c;
    visited = λ name s at e. absurd at;
    untouched = λ name away. refl;
  }
  round-Whole pings (n ∷ order) servers cache day (once, others) ready c =
      elim (Option-cases (lookup n servers)) [
        | inl e ↦
            rw (check_all_backends, e)
              (Whole-skip pings n order servers _ e
                (round-Whole pings order servers cache day others ready c))
        | inr (s, e) ↦
            let (bs', cache1, run, walk, w, c1) =
              run_backends-Walked fl cfg (pings n) 0 s.backends cache (day n) (ready n s e) c in
            let servers' = insert n (record s { backends = bs' }) servers in
            let rest =
              round-Whole pings order servers' cache1 day others
                (Ready-insert n s bs' servers ready w) c1 in
            rw (check_all_backends, e)
              (rw run (Whole-walk pings n order servers s bs' _ e once walk rest))
      ]
