-- ===== src/LoadBalancer/Backend.antt =====
-- internal/loadbalancer/backend.go: the state of one backend and the operations that change it.
-- Atomic int32 counters are bit patterns below 2 ^ 32, `int` fields are integers, a Duration is
-- its number of nanoseconds (time.Since reads the monotonic clock, so none is negative), and
-- `none` is a run-time panic.
pub mod Players
pub mod Window
pub mod Metrics
pub mod Scores
use rms_gate.Base.{
  ℕ, ◌+◌, ◌/◌, ◌%◌, String, Bool, true, false, not, ◌&&◌, Option, none, some, List, [], ◌∷◌, ◌++◌,
  if◌then◌else◌, length, ℤ, pos, ltb_ℤ, leb_ℤ, int32, inc_32, dec_32, lt_32, le_32, two_32,
  contains, add_name, remove_name,
}

pub record Backend : Type 0 where
  pub addr : String
  pub max_connections : ℤ
  pub current_conns : ℕ
  pub fail_count : ℕ
  pub success_count : ℕ
  pub healthy : Bool
  pub disabled : Bool
  pub latency_window : List ℕ
  pub window_size : ℤ
  pub last_check_time : ℤ
  pub players : List String
  pub trust_coeff : ℕ

abbrev pub fresh_backend : String → ℤ → ℤ → Backend
fresh_backend addr max_conns window_size = record {
  addr = addr;
  max_connections = max_conns;
  current_conns = 0;
  fail_count = 0;
  success_count = 0;
  healthy = true;
  disabled = false;
  latency_window = [];
  window_size = window_size;
  last_check_time = pos 0;
  players = [];
  trust_coeff = 100;
}

-- `make([]int64, 0, windowSize)` panics on a negative size.
unfoldable pub new_backend : String → ℤ → ℤ → Option Backend
new_backend addr max_conns window_size =
    if ltb_ℤ window_size (pos 0) then none else some (fresh_backend addr max_conns window_size)

-- `s[1:]` panics on an empty slice.
unfoldable pub slice_from_1 {ℓ} : {A : Type ℓ} → List A → Option (List A)
slice_from_1 [] = none
slice_from_1 (x ∷ xs) = some xs

-- `latency.Milliseconds()`
abbrev pub milliseconds : ℕ → ℕ
milliseconds latency = latency / 1_000_000

unfoldable pub record_latency : Backend → ℕ → Option Backend
unfolding slice_from_1
record_latency b latency =
    if leb_ℤ b.window_size (pos (length b.latency_window))
    then elim (slice_from_1 b.latency_window) [
      | none ↦ none
      | some w ↦ some (record b { latency_window = w ++ (milliseconds latency ∷ []) })
    ]
    else some (record b { latency_window = b.latency_window ++ (milliseconds latency ∷ []) })

unfoldable pub increase_trust : Backend → Backend
increase_trust b =
    let current = b.trust_coeff in
    if lt_32 current 100
    then (let new_val = (current + 10) % two_32 in
        record b { trust_coeff = if lt_32 100 new_val then 100 else new_val })
    else b

unfoldable pub reset_trust : Backend → Backend
reset_trust b = record b { trust_coeff = 50 }

unfoldable pub is_available : Backend → Bool
is_available b =
    if b.disabled
    then false
    else if not b.healthy
    then false
    else if ltb_ℤ (pos 0) b.max_connections && le_32 (int32 b.max_connections) b.current_conns
    then false
    else true

unfoldable pub add_player : Backend → String → Backend
add_player b name = record b {
  players = add_name name b.players;
  current_conns = inc_32 b.current_conns;
}

unfoldable pub remove_player : Backend → String → Backend
remove_player b name =
    if contains name b.players
    then record b { players = remove_name name b.players; current_conns = dec_32 b.current_conns }
    else b

unfoldable pub record_success : Backend → Backend
record_success b = record b { fail_count = 0 }

unfoldable pub record_health_check_success : Backend → Backend
record_health_check_success b = record b { fail_count = 0; success_count = inc_32 b.success_count }

unfoldable pub reset_success_count : Backend → Backend
reset_success_count b = record b { success_count = 0 }

unfoldable pub record_failure : Backend → Backend
record_failure b = record b { fail_count = inc_32 b.fail_count }

unfoldable pub record_health_check_failure : Backend → Backend
record_health_check_failure b = record b { fail_count = inc_32 b.fail_count; success_count = 0 }

unfoldable pub set_healthy : Backend → Bool → Backend
set_healthy b healthy = record b { healthy = healthy }

unfoldable pub set_disabled : Backend → Bool → Backend
set_disabled b disabled = record b { disabled = disabled }

unfoldable pub set_last_check_time : Backend → ℤ → Backend
set_last_check_time b t = record b { last_check_time = t }
