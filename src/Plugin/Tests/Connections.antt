-- ===== src/Plugin/Tests/Connections.antt =====
-- A stopped server that comes up at the second attempt.
use rms_gate.Base.{
  String, ◌≡◌, ◌↔◌, ◌⊎◌, true, false, none, some, [], ◌∷◌, arith, ◌==◌, if◌then◌else◌, ℤ, pos,
  lookup,
}
use rms_gate.DynamicServer.{is_auto_start_server}
use rms_gate.DynamicServer.Startup.{balanced}
use rms_gate.DynamicServer.Startup.Started.{ComesUp}
use rms_gate.McsManager.{Config, Service, start_instance}
use rms_gate.Plugin.Handlers.{Passage}
use rms_gate.Plugin.Handlers.Admission.{Running}
use rms_gate.Plugin.Handlers.Connecting.{Outside, world_of, connect, connect_iff}
use rms_gate.Plugin.Tests.{dynamic}

abbrev client : Config
client = record { base_url = "https://panel/api"; api_key = "k"; daemon_id = "d" }

abbrev panel : ℤ → Service
panel status = record {
  get = λ address. some (record { status_code = 200; body = some [] });
  error_of = λ body. some "";
  instances_of = λ body. some (record { instance_uuid = "u-1"; instance_status = status } ∷ []);
}

abbrev outside : Outside
outside = record {
  asked = panel (pos 0);
  commanded = panel (pos 0);
  attempted = λ i. if i == 0 then panel (pos 2) else panel (pos 3);
  network = record {
    cancelled = λ i. false;
    status = λ i. none;
    registered = true;
    cancelled_later = λ i. false;
    server = λ i. balanced (record { resolves = true; pings = true } ∷ []);
  };
}

connect_iff_example :
    ((p : Passage) × (connect outside dynamic client "creative" ≡ some p) × (p.denied ≡ false)) ↔ (
      (is_auto_start_server dynamic "creative" ≡ false)
      ⊎ Running (panel (pos 0)) dynamic client "creative"
      ⊎ ((uuid : String) × (lookup "creative" dynamic.server_uuid_map ≡ some uuid)
          × (start_instance (panel (pos 0)) client uuid ≡ some true)
          × ComesUp dynamic (world_of outside client uuid)))
connect_iff_example = connect_iff outside dynamic client "creative" (λ e. ground arith)
