-- ===== src/LoadBalancer/Server.antt =====
-- internal/loadbalancer/server_info.go: one load-balanced server, the connections it hands out,
-- and the interleaving of dials, closes and health checks. A `*Backend` is a position in
-- `backends`; `Dial` is split where it waits for the network: `dial_select`, then `dial_finish`
-- with what the network answered. `none` is a panic.
pub mod Limit
pub mod Sessions
pub mod Overlap
use rms_gate.Base.{
  ℕ, String, Bool, true, false, ◌&&◌, Option, none, some, List, [], ◌∷◌, if◌then◌else◌, ◌>>=◌,
  get_elem?, set, ℤ, pos, ltb_ℤ, int32, le_32,
}
use rms_gate.Float64.{Floats}
use rms_gate.LoadBalancer.Backend.{
  Backend, record_latency, add_player, remove_player, record_success, record_failure, set_healthy,
  reset_success_count,
}
use rms_gate.LoadBalancer.Strategy.{Strategy, refs_from, Environment, select, after_select}

pub record ServerInfo (F : Type 0) : Type 0 where
  pub name : String
  pub backends : List Backend
  pub strategy : Strategy
  pub jitter_threshold : F
  pub dial_timeout : ℤ
  pub unhealthy_after_failures : ℤ
  pub default_addr : Option String

-- `NewServerInfo`; `resolve` is net.ResolveTCPAddr, `none` where it fails.
unfoldable pub new_server_info :
    {F : Type 0}
    → (String → Option String)
    → String
    → List Backend
    → Strategy
    → F
    → ℤ
    → ℤ
    → ServerInfo F
new_server_info resolve name backends strategy jitter_threshold dial_timeout unhealthy = record {
  name = name;
  backends = backends;
  strategy = strategy;
  jitter_threshold = jitter_threshold;
  dial_timeout = dial_timeout;
  unhealthy_after_failures = unhealthy;
  default_addr = elim backends [ [] ↦ none | b ∷ bs ↦ resolve b.addr ];
}

-- A connection that was handed out: where it counts, and whether `closeOnce` has run.
pub record TrackedConn : Type 0 where
  pub backend : ℕ
  pub player_name : String
  pub closed : Bool

-- Write a backend through its pointer.
unfoldable pub store : {F : Type 0} → ServerInfo F → ℕ → Backend → ServerInfo F
store s p b = record s { backends = set s.backends p b }

module _ (fl : Floats) where
  -- The first part of `Dial`, up to the call of the dialler: the chosen pointer, `none` for nil.
  unfoldable pub dial_select :
      ServerInfo fl.Float → Environment fl.Float → Option (ServerInfo fl.Float × Option ℕ)
  dial_select s env =
      let refs = refs_from 0 s.backends in
      let moved = record s { strategy = after_select s.strategy refs } in
      elim (select fl s.strategy env refs) [
        | none ↦ none
        | some none ↦ some (moved, none)
        | some (some r) ↦ some (moved, some r.ptr)
      ]

-- What the dialler answers after `latency` nanoseconds.
pub data DialResult : Type 0 where
  dialled failed : ℕ → DialResult

-- The branch of `Dial` on an error.
unfoldable pub dial_failed : ℤ → Backend → ℕ → Option Backend
dial_failed unhealthy_after b latency = record_latency (record_failure b) latency >>= λ b'. some (
    if ltb_ℤ (pos 0) unhealthy_after && (le_32 (int32 unhealthy_after) b'.fail_count && b'.healthy)
    then reset_success_count (set_healthy b' false)
    else b')

-- The branch on a connection; a player that is nil has the name "".
unfoldable pub dial_succeeded : Backend → Option String → ℕ → Option Backend
dial_succeeded b player latency = record_latency (record_success b) latency >>= λ b'.
    some (add_player b' (elim player [ none ↦ "" | some n ↦ n ]))

-- The second part of `Dial`: the connection, or `none` for the error that it returns.
unfoldable pub dial_finish :
    {F : Type 0}
    → ServerInfo F
    → ℕ
    → Option String
    → DialResult
    → Option (ServerInfo F × Option TrackedConn)
dial_finish s p player (failed latency) = elim (get_elem? s.backends p) [
  | none ↦ none
  | some b ↦ dial_failed s.unhealthy_after_failures b latency >>= λ b'. some (store s p b', none)
]
dial_finish s p player (dialled latency) = elim (get_elem? s.backends p) [
  | none ↦ none
  | some b ↦ dial_succeeded b player latency >>= λ b'. some (
    store s p b',
    some (record {
      backend = p;
      player_name = elim player [ none ↦ "" | some n ↦ n ];
      closed = false;
    }),
  )
]

-- `trackedConn.Close`: the backend forgets the player on the first call alone.
unfoldable pub close : {F : Type 0} → ServerInfo F → TrackedConn → ServerInfo F × TrackedConn
close s c = if c.closed then (s, c) else (
  elim (get_elem? s.backends c.backend) [
    | none ↦ s
    | some b ↦ store s c.backend (remove_player b c.player_name)
  ],
  record c { closed = true },
)
