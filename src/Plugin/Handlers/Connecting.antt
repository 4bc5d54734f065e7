-- ===== src/Plugin/Handlers/Connecting.antt =====
-- The way to a server, through the handler, the dynamic servers and the status service.
use rms_gate.Base.{ℕ, String, ◌≡◌, ◌≢◌, ◌↔◌, ◌⊎◌, inl, inr, true, false, Option, some, pos, lookup}
use rms_gate.DynamicServer.{Config as DynamicConfig, is_auto_start_server}
use rms_gate.DynamicServer.Startup.{World, start_server}
use rms_gate.DynamicServer.Startup.Started.{ComesUp, start_server_iff}
use rms_gate.McsManager.{Config as McsConfig, Service as McsService, start_instance, status_answer}
use rms_gate.Plugin.Handlers.{Passage, on_server_pre_connect}
use rms_gate.Plugin.Handlers.Admission.{Running, on_server_pre_connect_iff}

-- The status service as it answers the handler, the command to start and each attempt of the wait;
-- and the rest of what the wait sees.
pub record Outside : Type 0 where
  pub asked : McsService
  pub commanded : McsService
  pub attempted : ℕ → McsService
  pub network : World

abbrev pub world_of : Outside → McsConfig → String → World
world_of out client uuid = record out.network {
  status = λ i. status_answer (out.attempted i) client uuid;
}

-- The handler, for a player whose call of `EnsureServerRunning` is the one that starts the server.
unfoldable pub connect : Outside → DynamicConfig → McsConfig → String → Option Passage
connect out cfg client name =
    on_server_pre_connect out.asked (some (cfg, client))
      (λ n. start_server cfg n (start_instance out.commanded client) (world_of out client))
      (some name)

-- Where the poll interval is not 0, a player who finds no other start under way gets to a server
-- without being denied if and only if the server is not managed, the service reports that its
-- instance runs, or it has an instance whose start command is accepted and which comes up in the
-- attempts that the timeouts allow.
pub connect_iff :
    (out : Outside) (cfg : DynamicConfig) (client : McsConfig) (name : String)
    → cfg.poll_interval_seconds ≢ pos 0
    → ((p : Passage) × (connect out cfg client name ≡ some p) × (p.denied ≡ false)) ↔ (
        (is_auto_start_server cfg name ≡ false)
        ⊎ Running out.asked cfg client name
        ⊎ ((uuid : String) × (lookup name cfg.server_uuid_map ≡ some uuid)
            × (start_instance out.commanded client uuid ≡ some true)
            × ComesUp cfg (world_of out client uuid)))
unfolding connect
connect_iff out cfg client name h =
    let start = λ (n : String).
      start_server cfg n (start_instance out.commanded client) (world_of out client) in
    let handler = on_server_pre_connect_iff out.asked cfg client start name in
    let starts =
      start_server_iff cfg name (start_instance out.commanded client) (world_of out client) h in
    (
      (λ e. elim (handler.0 e) [
        | inl m ↦ inl m
        | inr (inl r) ↦ inr (inl r)
        | inr (inr s) ↦ inr (inr (starts.0 s))
      ]),
      λ e. handler.1 (elim e [
        | inl m ↦ inl m
        | inr (inl r) ↦ inr (inl r)
        | inr (inr s) ↦ inr (inr (starts.1 s))
      ]),
    )
