-- ===== src/Plugin/Tests/Commands.antt =====
-- A delay of two minutes, the scores of a server's backends, and the commands that are typed.
use rms_gate.Base.{
  ℕ, String, ◌≡◌, refl, Bool, true, ◌&&◌, ◌||◌, none, some, List, [], ◌∷◌, leb, ◌==◌, get_elem?,
  pos, str_eq, lookup, codes,
}
use rms_gate.Float64.Fixed.{fixed}
use rms_gate.LoadBalancer.Backend.{Backend, fresh_backend}
use rms_gate.LoadBalancer.Strategy.{
  Environment, health_score, refs_from, filter_available, health_score_of,
}
use rms_gate.LoadBalancer.Server.{ServerInfo}
use rms_gate.LoadBalancer.HealthCheck.{HealthCheckConfig}
use rms_gate.LoadBalancer.Registry.{LoadBalancer, get_server}
use rms_gate.DynamicServer.{new_manager}
use rms_gate.Plugin.Commands.{Report, cmd_lb_status}
use rms_gate.Plugin.Commands.Shown.{cmd_lb_status-score}
use rms_gate.Plugin.Routes.{Plugin, ArgumentType, string_argument}
use rms_gate.Plugin.Routes.Typing.{RunsAll, first_path, first_path-Follows, typed_commands}
use rms_gate.Plugin.Tests.{dynamic}

abbrev backend : String → Backend
backend addr = fresh_backend addr (pos 0) (pos 20)

abbrev server : ServerInfo fixed.Float
server = record {
  name = "lobby";
  backends = backend "a" ∷ backend "b" ∷ backend "c" ∷ [];
  strategy = health_score;
  jitter_threshold = fixed.decimal 5 1;
  dial_timeout = pos 5;
  unhealthy_after_failures = pos 3;
  default_addr = none;
}

abbrev checks : HealthCheckConfig fixed.Float
checks = record {
  interval_seconds = pos 5;
  window_size = pos 20;
  unhealthy_after_failures = pos 3;
  healthy_after_successes = pos 3;
  jitter_threshold = fixed.decimal 5 1;
  dial_timeout_seconds = pos 5;
}

abbrev balancer : LoadBalancer fixed.Float (List String)
balancer = record { health_check = checks; servers = ("lobby", server) ∷ []; proxy = "lobby" ∷ [] }

abbrev env : Environment fixed.Float
env = record { history = none; period = 0; draw = none }

cmd_lb_status-score_example :
    (r : Report fixed.Float) × (get_elem? (cmd_lb_status fixed none 0 (some balancer) "lobby").1 1
      ≡ some r)
    × (r.about.stats_addr ≡ "b")
    × (r.score
        ≡ health_score_of fixed env (filter_available (refs_from 0 server.backends)) (backend "b"))
unfolding get_server lookup str_eq
cmd_lb_status-score_example =
    cmd_lb_status-score fixed env balancer "lobby" server (backend "a" ∷ []) (backend "c" ∷ [])
      (backend "b") refl refl (refl, tt)

abbrev plugin : Plugin fixed (List String)
plugin = record {
  dynamic_config = dynamic;
  now = pos 1_700_000_000_000;
  instant = pos 0;
  history = none;
  period = 0;
  dynamic_server = some new_manager;
  load_balancer = some balancer;
}

-- Letters, digits and "_-.+", which need no quotes.
abbrev plain : ℕ → Bool
plain c =
    (leb b'0' c && leb c b'9')
    || (leb b'a' c && leb c b'z')
    || (leb b'A' c && leb c b'Z')
    || (c == b'_')
    || (c == b'-')
    || (c == b'.')
    || (c == b'+')

all_plain : List ℕ → Bool
all_plain [] = true
all_plain (c ∷ cs) = plain c && all_plain cs

abbrev unquoted : ArgumentType → String → Bool
unquoted string_argument t = all_plain (codes t)

typed_commands_example : RunsAll fixed (first_path unquoted) plugin "creative" "2m"
unfolding all_plain
typed_commands_example =
    typed_commands fixed (first_path unquoted) (first_path-Follows unquoted) plugin "creative" "2m"
      refl refl
