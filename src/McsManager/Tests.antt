-- ===== src/McsManager/Tests.antt =====
-- A service that knows two instances.
use rms_gate.Base.{◌≡◌, ◌↔◌, false, some, List, [], ◌∷◌, pos, codes}
use rms_gate.McsManager.{Config, Service, Instance, get_instance_status}
use rms_gate.McsManager.Status.{Answers, FirstRuns, get_instance_status_iff}

abbrev client : Config
client = record { base_url = "https://panel/api"; api_key = "k"; daemon_id = "d" }

abbrev instances : List Instance
instances =
    record { instance_uuid = "u-1"; instance_status = pos 0 }
    ∷ record { instance_uuid = "u-2"; instance_status = pos 3 }
    ∷ []

abbrev panel : Service
panel = record {
  get = λ address. some (record { status_code = 200; body = some (codes "...") });
  error_of = λ body. some "";
  instances_of = λ body. some instances;
}

get_instance_status_iff_example :
    (get_instance_status panel client "u-2" ≡ (pos 3, false))
    ↔ ((found : List Instance) × Answers panel client found × FirstRuns "u-2" found)
get_instance_status_iff_example = get_instance_status_iff panel client "u-2"
