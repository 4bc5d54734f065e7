-- ===== src/Permission.antt =====
-- internal/permission/manager.go: the levels of users, cached, and who may run an admin command. The
-- clock and the answer of the API are arguments, and so is `strings.ToLower`. Times count
-- nanoseconds.
pub mod Levels
pub mod Commands
mod Tests
use rms_gate.Base.{
  ℕ, String, Bool, true, false, not, ◌||◌, none, some, List, [], ◌∷◌, ◌==◌, if◌then◌else◌, ℤ, pos,
  negsuc, ◌+ℤ◌, ltb_ℤ, mul_64, lookup, insert, codes, text_eq, fields,
}

abbrev pub level_admin : ℤ
level_admin = pos 3

-- `cache_ttl` is the configured time to live; none of it is negative in a sensible configuration.
pub record Manager : Type 0 where
  pub cache : List (String × ℤ)
  pub cache_expiry : ℤ
  pub cache_ttl : ℤ
  pub admin_commands : List String

-- `time.Duration(n) * time.Second`, which wraps around.
abbrev seconds : ℤ → ℤ
seconds n = mul_64 n 1_000_000_000

-- The zero `time.Time`, the start of year 1.
abbrev pub zero_time : ℤ
zero_time = negsuc 62_135_596_799_999_999_999

unfoldable pub new_manager : ℤ → List String → Manager
new_manager cache_ttl_seconds admin_commands = record {
  cache = [];
  cache_expiry = zero_time;
  cache_ttl = seconds cache_ttl_seconds;
  admin_commands = admin_commands;
}

pub record User : Type 0 where
  pub username : String
  pub permission_level : ℤ

-- What the API answers: an error on the way or in the body, `success` false, or the users.
pub data Answer : Type 0 where
  failed unsuccessful : Answer
  listed : List User → Answer

-- `s[1:]` if `s` starts with a slash.
abbrev pub trim_slash : List ℕ → List ℕ
trim_slash [] = []
trim_slash (c ∷ s) = if c == b'/' then s else c ∷ s

-- `p.cache[name]`, which is 0 for a name that is missing.
abbrev pub level_in : List (String × ℤ) → String → ℤ
level_in cache name = elim (lookup name cache) [ none ↦ pos 0 | some level ↦ level ]

module _ (to_lower : String → String) where
  -- The loop that fills the new cache.
  unfoldable pub fill : List (String × ℤ) → List User → List (String × ℤ)
  fill cache [] = cache
  fill cache (u ∷ us) = fill (insert (to_lower u.username) u.permission_level cache) us

  -- `fetchPermissions` at a time; false stands for an error.
  unfoldable pub fetch_permissions : Manager → ℤ → Answer → Manager × Bool
  unfolding fill
  fetch_permissions m now failed = (m, false)
  fetch_permissions m now unsuccessful = (m, true)
  fetch_permissions m now (listed users) =
      (record m { cache = fill [] users; cache_expiry = now +ℤ m.cache_ttl }, true)

  -- `GetPermissionLevel` where the API is asked: an error leaves what the cache had, or 0.
  unfoldable pub ask : Manager → ℤ → Answer → String → Manager × ℤ
  unfolding fetch_permissions
  ask m later answer name =
      let (m', fetched) = fetch_permissions m later answer in
      if fetched then (m', level_in m'.cache name) else (m, level_in m.cache name)

  -- The whole: the clock when the cache is read and when it is filled, and the answer, which counts
  -- only if the API is asked.
  unfoldable pub get_permission_level : Manager → ℤ → ℤ → Answer → String → Manager × ℤ
  unfolding ask
  get_permission_level m now later answer username =
      let name = to_lower username in
      elim (lookup name m.cache) [
        | none ↦ ask m later answer name
        | some level ↦ if ltb_ℤ m.cache_expiry now then ask m later answer name else (m, level)
      ]

  unfoldable pub is_admin : Manager → ℤ → ℤ → Answer → String → Manager × Bool
  unfolding get_permission_level
  is_admin m now later answer username =
      let (m', level) = get_permission_level m now later answer username in
      (m', ltb_ℤ level_admin level)

  -- The loop of `IsAdminCommand`.
  unfoldable pub names_command : List String → List ℕ → Bool
  names_command [] name = false
  names_command (c ∷ cs) name = text_eq (codes (to_lower c)) name || names_command cs name

-- A text that comes as code points, in lower case.
module _ (to_lower : String → String) (lower : List ℕ → List ℕ) where
  unfoldable pub is_admin_command : Manager → List ℕ → Bool
  unfolding names_command
  is_admin_command m cmd = elim (fields (lower (trim_slash cmd))) [
    | [] ↦ false
    | name ∷ _ ↦ names_command to_lower m.admin_commands name
  ]

  unfoldable pub can_execute : Manager → ℤ → ℤ → Answer → String → List ℕ → Manager × Bool
  unfolding is_admin is_admin_command
  can_execute m now later answer username cmd =
      if not (is_admin_command m cmd)
      then (m, true)
      else is_admin to_lower m now later answer username
