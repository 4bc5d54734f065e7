-- ===== src/Plugin/Handlers.antt =====
-- main.go, the handlers of events. What a handler sends to the player is part of its result; what it
-- logs is left out.
pub mod Admission
pub mod Connecting
use rms_gate.Base.{
  ℕ, String, Bool, true, false, not, Option, none, some, List, [], ◌∷◌, if◌then◌else◌, ◌>>=◌, ℤ,
  pos, ◌==ℤ◌, lookup, codes,
}
use rms_gate.Config.{Config as FileConfig}
use rms_gate.DynamicServer.{Config as DynamicConfig, is_auto_start_server}
use rms_gate.Permission.{Manager as PermissionManager, Answer, can_execute}
use rms_gate.McsManager.{Config as McsConfig, Service as McsService, get_instance_status}
use rms_gate.Whitelist.{allowed, not_in_whitelist, server_error, Service, check}

-- `onLogin`: the text that the player is refused with, `none` for a player who is let in.
unfoldable pub on_login :
    {F Request : Type 0} → Service Request → FileConfig F → String → String → Option String
on_login sv cfg username uuid =
    elim (check sv username uuid (codes cfg.api_url) cfg.timeout_seconds cfg.server_tier) [
      | allowed ↦ none
      | not_in_whitelist ↦ some cfg.msg_not_in_whitelist
      | server_error ↦ some cfg.msg_server_error
    ]

-- What a player is told on the way to a server that has to be started.
pub data Notice : Type 0 where
  starting startup_timeout : String → Notice

-- What a handler of a connection does: the notices, in their order, and whether it denies it.
pub record Passage : Type 0 where
  pub notices : List Notice
  pub denied : Bool

abbrev pub pass : Passage
pass = record { notices = []; denied = false }

-- `onServerPreConnect`, for the server the player asked for, if any; `ensure` is
-- `EnsureServerRunning`, and `none` its panic.
unfoldable pub on_server_pre_connect :
    McsService
    → Option (DynamicConfig × McsConfig)
    → (String → Option Bool)
    → Option String
    → Option Passage
on_server_pre_connect sv none ensure server = some pass
on_server_pre_connect sv (some (cfg, client)) ensure none = some pass
on_server_pre_connect sv (some (cfg, client)) ensure (some name) =
    let uuid : String = elim (lookup name cfg.server_uuid_map) [ none ↦ "" | some u ↦ u ] in
    let status = (get_instance_status sv client uuid).0 in
    if not (is_auto_start_server cfg name)
    then some pass
    else if status ==ℤ pos 3
    then some pass
    else (ensure name >>= λ ready. some (
        if ready
        then record { notices = starting name ∷ []; denied = false }
        else record { notices = starting name ∷ startup_timeout name ∷ []; denied = true }))

-- `onCommandExecute`, for a player or another source; the message is sent with a refusal.
pub data Source : Type 0 where
  player : String → Source
  other : Source

unfoldable pub on_command_execute :
    (String → String)
    → (List ℕ → List ℕ)
    → Option PermissionManager
    → ℤ
    → ℤ
    → Answer
    → Source
    → List ℕ
    → Option PermissionManager × Bool
on_command_execute to_lower lower none now later answer source cmd = (none, true)
on_command_execute to_lower lower (some m) now later answer other cmd = (some m, true)
on_command_execute to_lower lower (some m) now later answer (player name) cmd =
    let (m', ok) = can_execute to_lower lower m now later answer name cmd in (some m', ok)
