-- ===== src/LoadBalancer/Registry/Switches.antt =====
-- Switching backends off and on.
use rms_gate.Base.{
  ℕ, String, ◌≡◌, refl, sym, ap, ◌∙◌, ◌≢◌, Bool, true, false, some, List, [], ◌∷◌, ◌++◌, arith,
  if◌then◌else◌, length, get_elem?, All, str_eq, lookup, insert, lookup-insert, lookup-insert_self,
  lookup-restored,
}
use rms_gate.LoadBalancer.Backend.{Backend, set_disabled}
use rms_gate.LoadBalancer.Server.{ServerInfo}
use rms_gate.LoadBalancer.Registry.{
  LoadBalancer, switch_first, disable_backend, enable_backend, switch_backend, get_server,
}
use rms_gate.LoadBalancer.Server.{dial_select}
use rms_gate.Float64.{Floats}
use rms_gate.LoadBalancer.Strategy.{Environment}
use rms_gate.LoadBalancer.Server.Overlap.{Traffic}
use rms_gate.LoadBalancer.Server.Overlap.Off.{Run, Run-Off, Off-dial}

-- The backends before the first with an address, that one, and those behind it.
pub record FirstWith (addr : String) (bs front : List Backend) (b : Backend) (back : List Backend)
    : Type 0 where
  pub split : bs ≡ front ++ (b ∷ back)
  pub others : All (λ x. str_eq x.addr addr ≡ false) front
  pub named : str_eq b.addr addr ≡ true

switch_front :
    (v : Bool) (addr : String) (front back : List Backend) (b : Backend)
    → All (λ x. str_eq x.addr addr ≡ false) front
    → str_eq b.addr addr ≡ true
    → switch_first v addr (front ++ (b ∷ back)) ≡ some (front ++ (set_disabled b v ∷ back))
unfolding switch_first
switch_front v addr [] back b u h = ground arith
switch_front v addr (x ∷ front) back b (e, u) h =
    ground (arith, switch_front v addr front back b u h)

switch_first_lem :
    {addr : String} {bs front back : List Backend} {b : Backend} (v : Bool)
    → FirstWith addr bs front b back
    → switch_first v addr bs ≡ some (front ++ (set_disabled b v ∷ back))
switch_first_lem {addr} {bs} {front} {back} {b} v f =
    ap (switch_first v addr) f.split ∙ switch_front v addr front back b f.others f.named

at_length :
    (front back : List Backend) (b : Backend)
    → get_elem? (front ++ (b ∷ back)) (length front) ≡ some b
at_length [] back b = refl
at_length (x ∷ front) back b = at_length front back b

module _ {F P : Type 0} (lb : LoadBalancer F P) (name : String) (s : ServerInfo F) where
  -- The table with the backends of one server replaced.
  abbrev pub replaced : List Backend → LoadBalancer F P
  replaced bs = record lb { servers = insert name (record s { backends = bs }) lb.servers }

  switched :
      (addr : String) {front back : List Backend} {b : Backend} (v : Bool)
      → lookup name lb.servers ≡ some s
      → FirstWith addr s.backends front b back
      → switch_backend v lb name addr ≡ (replaced (front ++ (set_disabled b v ∷ back)), true)
  unfolding switch_backend
  switched addr v g f = rw (g, switch_backend) (rw (switch_first_lem v f, switch_backend) refl)

-- `DisableBackend` of a backend that the server has answers true and switches off the first backend
-- with the address, and other servers are as before. From there no order of dials, closes, health
-- checks and switches leads to a dial of that server that chooses it, as long as no step switches it
-- on again.
pub disable_backend-dial :
    (fl : Floats) {P : Type 0} (lb : LoadBalancer fl.Float P) (name addr : String)
    (s : ServerInfo fl.Float) (front back : List Backend) (b : Backend)
    → get_server lb name ≡ some s
    → FirstWith addr s.backends front b back
    → let (lb', found) = disable_backend lb name addr in
      (found ≡ true)
      × (s' : ServerInfo fl.Float) × (get_server lb' name ≡ some s')
      × (s'.backends ≡ front ++ (set_disabled b true ∷ back))
      × ((k : ℕ) (pending : ℕ → ℕ) (t : Traffic fl.Float) (env : Environment fl.Float)
            (s1 : ServerInfo fl.Float)
          → Run fl k (length front) (record { server = s'; pending = pending }) t
          → dial_select fl t.server env ≢ some (s1, some (length front)))
      × ((other : String) → str_eq name other ≡ false → get_server lb' other ≡ get_server lb other)
unfolding get_server disable_backend set_disabled
disable_backend-dial fl lb name addr s front back b g f =
    let bs : List Backend = front ++ (set_disabled b true ∷ back) in
    let s' : ServerInfo fl.Float = record s { backends = bs } in
    let done = switched lb name s addr true g f in
    (
      ap (λ r. r.1) done,
      s',
      ap (λ r. lookup name r.0.servers) done ∙ lookup-insert_self name s' lb.servers,
      refl,
      (λ k pending t env s1 run.
          Off-dial fl t.server s1 env (length front) (
            Run-Off fl run
              (set_disabled b true, at_length front back (set_disabled b true), refl))),
      λ other ne.
          ap (λ r. lookup other r.0.servers) done
          ∙ lookup-insert name other s' lb.servers
          ∙ ap (λ t. if t then some s' else lookup other lb.servers) ne,
    )

-- Switched off and on again, a backend that was on leaves every server as it was.
disable-enable :
    {F P : Type 0} (lb : LoadBalancer F P) (name addr : String) (s : ServerInfo F)
    (front back : List Backend) (b : Backend)
    → get_server lb name ≡ some s
    → FirstWith addr s.backends front b back
    → b.disabled ≡ false
    → let (lb1, _) = disable_backend lb name addr in
      let (lb2, found) = enable_backend lb1 name addr in
      (found ≡ true) × ((other : String) → get_server lb2 other ≡ get_server lb other)
unfolding get_server disable_backend enable_backend set_disabled
disable-enable lb name addr s front back b g f on =
    let off : Backend = set_disabled b true in
    let s1 : ServerInfo _ = record s { backends = front ++ (off ∷ back) } in
    let lb1 = replaced lb name s (front ++ (off ∷ back)) in
    let f1 : FirstWith addr s1.backends front off back = record {
      split = refl;
      others = f.others;
      named = f.named;
    } in
    let done = switched lb name s addr true g f in
    let again = switched lb1 name s1 addr false (lookup-insert_self name s1 lb.servers) f1 in
    let both = ap (λ r. switch_backend false r.0 name addr) done ∙ again in
    let on_again : Backend = set_disabled off false in
    let same : record s { backends = front ++ (on_again ∷ back) } ≡ s =
      ap (λ d. record s { backends = front ++ (record b { disabled = d } ∷ back) }) (sym on)
      ∙ ap (λ bs. record s { backends = bs }) (sym f.split) in
    (
      ap (λ r. r.1) both,
      λ other.
          ap (λ r. lookup other r.0.servers) both
          ∙ ap (λ x. lookup other (insert name x (insert name s1 lb.servers))) same
          ∙ lookup-restored name other s s1 lb.servers g,
    )
