-- ===== src/McsManager.antt =====
-- internal/mcsmanager/client.go: instances are started, stopped and looked up by an HTTP service.
-- Requests are made and answered by an argument, bodies are decoded by one.
pub mod Status
mod Tests
use rms_gate.Base.{
  ℕ, String, Bool, true, false, not, Option, none, some, List, [], ◌∷◌, ◌++◌, ◌==◌, if◌then◌else◌,
  ℤ, pos, ◌==ℤ◌, str_eq, codes,
}

pub record Config : Type 0 where
  pub base_url : String
  pub api_key : String
  pub daemon_id : String

-- The client that `NewClient` builds keeps its configuration; its HTTP client is the service.
unfoldable pub new_client : Config → Config
new_client cfg = record {
  base_url = cfg.base_url;
  api_key = cfg.api_key;
  daemon_id = cfg.daemon_id;
}

-- What `http.Client.Do` answers, and `io.ReadAll` of the body, if it can be read.
pub record Response : Type 0 where
  pub status_code : ℕ
  pub body : Option (List ℕ)

pub record Instance : Type 0 where
  pub instance_uuid : String
  pub instance_status : ℤ

-- `get` makes a GET request for an address and does it, `none` for an error; `error_of` decodes the
-- field `err` of a body, `instances_of` the list of instances.
pub record Service : Type 0 where
  pub get : List ℕ → Option Response
  pub error_of : List ℕ → Option String
  pub instances_of : List ℕ → Option (List Instance)

-- The three addresses.
abbrev keys : Config → List ℕ
keys cfg = codes "&daemonId=" ++ (codes cfg.daemon_id ++ (codes "&apikey=" ++ codes cfg.api_key))

unfoldable pub open_address : Config → String → List ℕ
open_address cfg uuid =
    codes cfg.base_url ++ (codes "/protected_instance/open?uuid=" ++ (codes uuid ++ keys cfg))

unfoldable pub stop_address : Config → String → List ℕ
stop_address cfg uuid =
    codes cfg.base_url ++ (codes "/protected_instance/stop?uuid=" ++ (codes uuid ++ keys cfg))

unfoldable pub list_address : Config → List ℕ
list_address cfg =
    codes cfg.base_url
    ++ (codes "/service/remote_service_instances?daemonId="
        ++ (codes cfg.daemon_id ++ (codes "&page=1&page_size=100&apikey=" ++ codes cfg.api_key)))

-- `StartInstance` and `StopInstance`, which differ in the address: `none` is an error.
unfoldable pub command : Service → List ℕ → Option Bool
command sv address = elim (sv.get address) [
  | none ↦ none
  | some resp ↦ if not (resp.status_code == 200) then some false else elim resp.body [
    | none ↦ none
    | some body ↦ elim (sv.error_of body) [
      | none ↦ none
      | some error ↦ if not (str_eq error "") then some false else some true
    ]
  ]
]

unfoldable pub start_instance : Service → Config → String → Option Bool
unfolding command open_address
start_instance sv cfg uuid = command sv (open_address cfg uuid)

unfoldable pub stop_instance : Service → Config → String → Option Bool
unfolding command stop_address
stop_instance sv cfg uuid = command sv (stop_address cfg uuid)

-- The loop of `GetInstanceStatus`; an instance that is missing counts as starting.
unfoldable pub find_status : String → List Instance → ℤ
find_status uuid [] = pos 2
find_status uuid (inst ∷ rest) =
    let later = find_status uuid rest in
    if str_eq inst.instance_uuid uuid then inst.instance_status else later

-- The status, and whether there is an error beside it.
unfoldable pub get_instance_status : Service → Config → String → ℤ × Bool
unfolding find_status list_address
get_instance_status sv cfg uuid = elim (sv.get (list_address cfg)) [
  | none ↦ (pos 2, true)
  | some resp ↦ if not (resp.status_code == 200) then (pos 2, false) else elim resp.body [
    | none ↦ (pos 2, true)
    | some body ↦ elim (sv.instances_of body) [
      | none ↦ (pos 2, true)
      | some instances ↦ (find_status uuid instances, false)
    ]
  ]
]

unfoldable pub is_instance_running : Service → Config → String → Option Bool
unfolding get_instance_status
is_instance_running sv cfg uuid =
    let (status, failed) = get_instance_status sv cfg uuid in
    if failed then none else some (status ==ℤ pos 3)

-- The answer as the dynamic servers read it: an error hides the status.
unfoldable pub status_answer : Service → Config → String → Option ℤ
unfolding get_instance_status
status_answer sv cfg uuid =
    let (status, failed) = get_instance_status sv cfg uuid in if failed then none else some status
