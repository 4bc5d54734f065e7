-- ===== src/Permission/Tests.antt =====
-- One listed admin, and commands in lower case.
use rms_gate.Base.{String, ◌≡◌, refl, List, [], ◌∷◌, arith, pos, mul_64, ◌+ℤ◌, str_eq}
use rms_gate.Permission.{
  Manager, User, failed, listed, new_manager, fetch_permissions, get_permission_level,
}
use rms_gate.Permission.Levels.{level_of, get_permission_level-cached}

abbrev same : String → String
same s = s

abbrev users : List User
users =
    record { username = "alex"; permission_level = pos 2 }
    ∷ record { username = "steve"; permission_level = pos 4 }
    ∷ record { username = "alex"; permission_level = pos 1 }
    ∷ []

abbrev manager : Manager
manager = new_manager (pos 300) ("send" ∷ "lb" ∷ [])

-- 299 seconds after the API was asked.
get_permission_level-cached_example :
    let m' = (fetch_permissions same manager (pos 1000) (listed users)).0 in
    get_permission_level same m' (pos 299_000_000_000) (pos 299_000_000_001) failed "alex"
    ≡ (m', pos 1)
unfolding level_of str_eq new_manager ◌+ℤ◌ mul_64
get_permission_level-cached_example =
    get_permission_level-cached same manager (pos 1000) (pos 299_000_000_000) (pos 299_000_000_001)
      users failed "alex" (pos 1) refl (omega arith)
