-- ===== src/Permission/Levels.antt =====
-- What the cache answers, and for how long.
use rms_gate.Base.{
  String, ◌≡◌, refl, inl, inr, false, Option, none, some, List, [], ◌∷◌, arith, if◌then◌else◌,
  Bool-cases, Option-cases, ℤ, pos, ◌+ℤ◌, ◌≤ℤ◌, ltb_ℤ, str_eq, lookup, insert, lookup-insert,
}
use rms_gate.Permission.{
  Manager, User, Answer, failed, unsuccessful, listed, fill, fetch_permissions, ask, level_in,
  get_permission_level,
}

module _ (to_lower : String → String) where
  -- The level that a list of users gives a name: that of the last entry with it.
  unfoldable pub level_of : List User → String → Option ℤ
  level_of [] name = none
  level_of (u ∷ us) name =
      let own = if str_eq (to_lower u.username) name then some u.permission_level else none in
      elim (level_of us name) [ none ↦ own | some level ↦ some level ]

  lookup-fill :
      (us : List User) (cache : List (String × ℤ)) (name : String)
      → lookup name (fill to_lower cache us)
        ≡ elim (level_of us name) [ none ↦ lookup name cache | some level ↦ some level ]
  unfolding fill level_of
  lookup-fill [] cache name = refl
  lookup-fill (u ∷ us) cache name = ground (
    arith,
    lookup-fill us (insert (to_lower u.username) u.permission_level cache) name,
    lookup-insert (to_lower u.username) name u.permission_level cache,
  )

  get_permission_level-fresh :
      (m : Manager) (now later : ℤ) (answer : Answer) (username : String) (level : ℤ)
      → lookup (to_lower username) m.cache ≡ some level
      → ltb_ℤ m.cache_expiry now ≡ false
      → get_permission_level to_lower m now later answer username ≡ (m, level)
  unfolding get_permission_level
  get_permission_level-fresh m now later answer username level e h =
      rw (e, get_permission_level) (rw (h, get_permission_level) refl)

  -- Once the API has listed the users, a listed user has the level of the last entry with the name,
  -- in any case, and the API is not asked again, until the time to live is over.
  pub get_permission_level-cached :
      (m : Manager) (start now later : ℤ) (users : List User) (answer : Answer) (username : String)
      (level : ℤ)
      → level_of users (to_lower username) ≡ some level
      → now ≤ℤ start +ℤ m.cache_ttl
      → let m' = (fetch_permissions to_lower m start (listed users)).0 in
        get_permission_level to_lower m' now later answer username ≡ (m', level)
  unfolding fetch_permissions
  get_permission_level-cached m start now later users answer username level e h =
      let found : lookup (to_lower username) (fill to_lower [] users) ≡ some level =
        ground (arith, lookup-fill users [] (to_lower username)) in
      get_permission_level-fresh _ now later answer username level found (ground (arith, h))

  -- Where the level of a name can come from: the cache, or what the API answers.
  pub data Source (m : Manager) (answer : Answer) (name : String) : ℤ → Type 0 where
    remembered : (level : ℤ) → lookup name m.cache ≡ some level → Source m answer name level
    told :
        (users : List User) (level : ℤ)
        → answer ≡ listed users
        → level_of users name ≡ some level
        → Source m answer name level
    unknown : Source m answer name (pos 0)

  level_in-Source :
      (m : Manager) (answer : Answer) (name : String) → Source m answer name (level_in m.cache name)
  level_in-Source m answer name = elim (Option-cases (lookup name m.cache)) [
    | inl e ↦ rw (e, level_in) unknown
    | inr (level, e) ↦ rw (e, level_in) (remembered level e)
  ]

  ask-Source :
      (m : Manager) (later : ℤ) (answer : Answer) (name : String)
      → Source m answer name (ask to_lower m later answer name).1
  unfolding ask fetch_permissions lookup
  ask-Source m later failed name = level_in-Source m failed name
  ask-Source m later unsuccessful name = level_in-Source m unsuccessful name
  ask-Source m later (listed users) name =
      let q = lookup-fill users [] name in
      elim (Option-cases (level_of users name)) [
        | inl e ↦
            let gone : lookup name (fill to_lower [] users) ≡ none = ground (arith, q, e) in
            rw (gone, level_in) unknown
        | inr (level, e) ↦
            let there : lookup name (fill to_lower [] users) ≡ some level = ground (arith, q, e) in
            rw (there, level_in) (told users level refl e)
      ]

  pub get_permission_level-Source :
      (m : Manager) (now later : ℤ) (answer : Answer) (username : String)
      → Source m answer
          (to_lower username)
          (get_permission_level to_lower m now later answer username).1
  unfolding get_permission_level
  get_permission_level-Source m now later answer username =
      let asked = ask-Source m later answer (to_lower username) in
      elim (Option-cases (lookup (to_lower username) m.cache)) [
        | inl e ↦ rw (e, get_permission_level) asked
        | inr (level, e) ↦ elim (Bool-cases (ltb_ℤ m.cache_expiry now)) [
          | inl old ↦ rw (e, get_permission_level) (rw (old, get_permission_level) asked)
          | inr new ↦
              rw (e, get_permission_level) (rw (new, get_permission_level) (remembered level e))
        ]
      ]
