-- ===== src/LoadBalancer/Backend/Players.antt =====
-- Who is connected, against what the backend counts.
use rms_gate.Base.{
  ℕ, ◌+◌, ◌≤◌, ◌<◌, String, ◌≡◌, ◌∙◌, ◌↔◌, ◌⊎◌, inl, inr, true, false, List, [], ◌∷◌, arith,
  if◌then◌else◌, Bool-cases, length, pos, pos_part, ◌≤ℤ◌, two_31, str_eq_refl, contains, add_name,
  remove_name, length-remove_name,
}
use rms_gate.LoadBalancer.Backend.{Backend, is_available, add_player, remove_player}

-- The connections counted are those of the names listed, and `extra` others.
pub record Counts (extra : ℕ) (b : Backend) : Type 0 where
  pub balance : b.current_conns ≡ length b.players + extra
  pub fits : b.current_conns < two_31

pub add_player-Counts :
    (extra : ℕ) (b : Backend) (name : String)
    → contains name b.players ≡ false
    → b.current_conns + 1 < two_31
    → Counts extra b
    → Counts extra (add_player b name)
unfolding add_player add_name
add_player-Counts extra b name new room c = ground arith

pub remove_player-Counts :
    (extra : ℕ) (b : Backend) (name : String) → Counts extra b → Counts extra (remove_player b name)
unfolding remove_player
remove_player-Counts extra b name c = ground (arith, length-remove_name name b.players)

-- A name that is listed already is counted once more and not listed again.
pub add_player_again :
    (extra : ℕ) (b : Backend) (name : String)
    → contains name b.players ≡ true
    → b.current_conns + 1 < two_31
    → Counts extra b
    → Counts (extra + 1) (add_player b name)
unfolding add_player add_name
add_player_again extra b name old room c = ground arith

pub data Event : Type 0 where
  joins leaves : String → Event

pub happens : Backend → Event → Backend
happens b (joins name) = add_player b name
happens b (leaves name) = remove_player b name

pub play : List Event → Backend → Backend
play [] b = b
play (e ∷ es) b = play es (happens b e)

-- How often a player joins who is listed at that time.
pub repeats : List Event → Backend → ℕ
repeats [] b = 0
repeats (joins name ∷ es) b =
    (if contains name b.players then 1 else 0) + repeats es (add_player b name)
repeats (leaves name ∷ es) b = repeats es (remove_player b name)

joins_once :
    (b : Backend) (name : String)
    → b.current_conns + 1 < two_31
    → (add_player b name).current_conns ≡ b.current_conns + 1
unfolding add_player
joins_once b name h = ground arith

leaves_once :
    (extra : ℕ) (b : Backend) (name : String)
    → Counts extra b
    → (remove_player b name).current_conns ≤ b.current_conns
unfolding remove_player
leaves_once extra b name c = ground (arith, length-remove_name name b.players, c.balance, c.fits)

-- After any calls of `AddPlayer` and `RemovePlayer` the connections that are counted are the
-- players that are listed, the surplus there was before, and one for each join of a listed name.
pub play-Counts :
    (es : List Event) (extra : ℕ) (b : Backend)
    → Counts extra b
    → b.current_conns + length es < two_31
    → (play es b).current_conns ≡ length (play es b).players + (extra + repeats es b)
unfolding play happens repeats
play-Counts [] extra b c h = omega (arith, c.balance)
play-Counts (joins name ∷ es) extra b c h = elim (Bool-cases (contains name b.players)) [
  | inl e ↦
      play-Counts es (extra + 1) (add_player b name)
        (add_player_again extra b name e (omega (arith, h)) c)
        (omega (arith, h, joins_once b name (omega (arith, h))))
      ∙ rw e (omega arith)
  | inr e ↦
      play-Counts es extra (add_player b name)
        (add_player-Counts extra b name e (omega (arith, h)) c)
        (omega (arith, h, joins_once b name (omega (arith, h))))
      ∙ rw e (omega arith)
]
play-Counts (leaves name ∷ es) extra b c h =
    play-Counts es extra (remove_player b name) (remove_player-Counts extra b name c)
      (omega (arith, h, leaves_once extra b name c))

-- `IsAvailable`, for a limit that fits int32 and a count that is not negative.
is_available_iff :
    (b : Backend)
    → b.max_connections ≤ℤ pos 0x7fff_ffff
    → b.current_conns < two_31
    → (is_available b ≡ true) ↔ (
        (b.disabled ≡ false)
        × (b.healthy ≡ true)
        × ((b.max_connections ≤ℤ pos 0) ⊎ (b.current_conns < pos_part b.max_connections)))
unfolding is_available
is_available_iff b h k = ground arith

-- A player who connects again before the first connection closes: both connections close, and one
-- of them is counted for ever.
reconnect-leaks :
    (b : Backend) (name : String)
    → contains name b.players ≡ false
    → b.current_conns + 2 < two_31
    → let b' = remove_player (remove_player (add_player (add_player b name) name) name) name in
      (b'.current_conns ≡ b.current_conns + 1) × (b'.players ≡ b.players)
unfolding add_player remove_player add_name remove_name contains
reconnect-leaks b name new room = ground (arith, str_eq_refl name)
