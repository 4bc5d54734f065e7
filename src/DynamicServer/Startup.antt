-- ===== src/DynamicServer/Startup.antt =====
-- Starting a server and waiting for it: `waitForServerReady`, `checkServerConnectivity` and
-- `checkAnyBackendReachable`. What the outside answers at the n-th attempt is a function of n.
-- `none` is a panic; sleeping between attempts is not visible here.
pub mod Waiting
pub mod Started
use rms_gate.Base.{
  ℕ, zero, suc, ◌+◌, ◌/◌, String, Bool, true, false, not, ◌||◌, Option, none, some, List, [], ◌∷◌,
  if◌then◌else◌, ◌>>=◌, ℤ, pos, negsuc, pos_part, minus, ◌==ℤ◌, lookup,
}
use rms_gate.DynamicServer.{Config}

-- Go's `a / b` on int truncates towards 0, and panics for b = 0.
unfoldable pub quotient : ℤ → ℤ → Option ℤ
quotient a (pos zero) = none
quotient (pos a) (pos (suc b)) = some (pos (a / suc b))
quotient (negsuc a) (pos (suc b)) = some (minus (suc a / suc b))
quotient (pos a) (negsuc b) = some (minus (a / suc b))
quotient (negsuc a) (negsuc b) = some (pos (suc a / suc b))

-- A backend's address, whether it resolves, and whether a ping of what it resolves to succeeds.
pub record Target : Type 0 where
  pub resolves : Bool
  pub pings : Bool

-- What a server's `ServerInfo` offers: several backends, or one address.
pub data Provider : Type 0 where
  balanced : List Target → Provider
  single : Bool → Provider

unfoldable pub any_pings : List Target → Bool
any_pings [] = false
any_pings (t ∷ ts) =
    let rest = any_pings ts in if not t.resolves then rest else if t.pings then true else rest

unfoldable pub check_any_backend_reachable : Provider → Bool
unfolding any_pings
check_any_backend_reachable (balanced ts) = any_pings ts
check_any_backend_reachable (single pings) = pings

-- The loop of `checkServerConnectivity`: `n` attempts are left, the next one is number `i`.
unfoldable pub connect_loop : (ℕ → Bool) → (ℕ → Provider) → ℕ → ℕ → Bool
unfolding check_any_backend_reachable
connect_loop cancelled server zero i = false
connect_loop cancelled server (suc n) i =
    let rest = connect_loop cancelled server n (i + 1) in
    if cancelled i then false else if check_any_backend_reachable (server i) then true else rest

-- The outside, as the two loops see it: whether the context is done, the answers of the status
-- service (`none` is an error), and the server as the proxy knows it, if it does.
pub record World : Type 0 where
  pub cancelled : ℕ → Bool
  pub status : ℕ → Option ℤ
  pub registered : Bool
  pub cancelled_later : ℕ → Bool
  pub server : ℕ → Provider

unfoldable pub check_server_connectivity : Config → World → Option Bool
unfolding connect_loop quotient
check_server_connectivity cfg w =
    if not w.registered
    then some false
    else (quotient cfg.connectivity_timeout_seconds cfg.poll_interval_seconds >>= λ max_attempts.
        some (connect_loop w.cancelled_later w.server (pos_part max_attempts) 0))

-- What a status tells the loop: go on, try to connect, or give up.
pub data Verdict : Type 0 where
  again running broken : Verdict

unfoldable pub verdict : Option ℤ → Verdict
verdict none = again
verdict (some status) =
    if status ==ℤ pos 3
    then running
    else if status ==ℤ pos 0 || (status ==ℤ pos 1 || status ==ℤ pos 2)
    then again
    else broken

-- The loop of `waitForServerReady`; `connect` is the call at its end.
unfoldable pub wait_loop : (ℕ → Bool) → (ℕ → Option ℤ) → Option Bool → ℕ → ℕ → Option Bool
wait_loop cancelled status connect zero i = some false
wait_loop cancelled status connect (suc n) i =
    let rest = wait_loop cancelled status connect n (i + 1) in
    if cancelled i
    then some false
    else elim (verdict (status i)) [ again ↦ rest | running ↦ connect | broken ↦ some false ]

unfoldable pub wait_for_server_ready : Config → World → Option Bool
unfolding quotient wait_loop check_server_connectivity
wait_for_server_ready cfg w =
    quotient cfg.startup_timeout_seconds cfg.poll_interval_seconds >>= λ max_attempts.
    wait_loop w.cancelled w.status (check_server_connectivity cfg w) (pos_part max_attempts) 0

-- What `EnsureServerRunning` does once it is the starter: `start` is the answer to the command,
-- `none` an error.
unfoldable pub start_server :
    Config → String → (String → Option Bool) → (String → World) → Option Bool
unfolding wait_for_server_ready
start_server cfg name start world = elim (lookup name cfg.server_uuid_map) [
  | none ↦ some false
  | some uuid ↦ elim (start uuid) [
    | none ↦ some false
    | some started ↦ if not started then some false else wait_for_server_ready cfg (world uuid)
  ]
]
