-- ===== src/Plugin/Routes.antt =====
-- main.go, `registerCommands`, `cmdHelp` and `cmdLBHelp`: the trees of `/dserver` and `/lb` that are
-- registered with the proxy, and the handler that each path of a tree runs. How the proxy finds the
-- path of what is typed is an argument, and so is what it returns for an argument that the path does
-- not name.
pub mod Paths
pub mod Typing
use rms_gate.Base.{ℕ, ◌-◌, ◌/◌, ◌<◌, String, Option, List, [], ◌∷◌, ℤ, codes}
use rms_gate.Float64.{Floats}
use rms_gate.LoadBalancer.History.{Cache}
use rms_gate.LoadBalancer.Registry.{LoadBalancer}
use rms_gate.DynamicServer.{Config, Manager}
use rms_gate.Plugin.Commands.{
  Message, Report, cmd_delay, cmd_auto_shutdown, cmd_lb_status, cmd_lb_status_all, cmd_lb_disable,
  cmd_lb_enable,
}

-- The functions that are given to `Executes`.
pub data Handler : Type 0 where
  delay auto_shutdown help lb_status lb_status_all lb_disable lb_enable lb_help : Handler

-- `brigodier.String`, the type of every argument.
pub data ArgumentType : Type 0 where
  string_argument : ArgumentType

-- The calls that build a tree, as the code writes them.
pub data Builder : Type 0 where
  literal : String → Builder
  argument : String → ArgumentType → Builder
  ◌>then>◌ : Builder → Builder → Builder
  ◌>executes>◌ : Builder → Handler → Builder

infixl 5 ◌>then>◌ ◌>executes>◌
-- The two calls of `Register`.
unfoldable pub register_commands : List Builder
register_commands =
    (literal "dserver"
      >then> (literal "delay"
          >then> (argument "server" string_argument
              >then> (argument "time" string_argument >executes> delay)))
      >then> (literal "autoshutdown"
          >then> (argument "server" string_argument
              >then> (argument "toggle" string_argument >executes> auto_shutdown)))
      >executes> help)
    ∷ (literal "lb"
        >then> (literal "status"
            >then> (argument "server" string_argument >executes> lb_status)
            >executes> lb_status_all)
        >then> (literal "disable"
            >then> (argument "server" string_argument
                >then> (argument "backend" string_argument >executes> lb_disable)))
        >then> (literal "enable"
            >then> (argument "server" string_argument
                >then> (argument "backend" string_argument >executes> lb_enable)))
        >executes> lb_help)
    ∷ []

unfoldable pub cmd_help : List String
cmd_help =
    "Dynamic Server Management Commands:"
    ∷ "  /dserver delay <server> <time|off> - Set/clear protection period"
    ∷ "    Time format: 10s, 5m, 2h or plain seconds"
    ∷ "  /dserver autoshutdown <server> <on|off> - Toggle auto-shutdown" ∷ []

unfoldable pub cmd_lb_help : List String
cmd_lb_help =
    "Load Balancer Commands:" ∷ "  /lb status [server] - Show backend status and health scores"
    ∷ "  /lb disable <server> <backend> - Disable a backend"
    ∷ "  /lb enable <server> <backend> - Enable a backend" ∷ []

-- The arguments of a path, by their names.
abbrev pub Args : Type 0
Args = List (String × String)

-- What a command shows.
pub data Shown (F : Type 0) : Type 0 where
  messages : List Message → Shown F
  status : Message → List (Report F) → Shown F
  lines : List String → Shown F

-- What the handlers read, and the parts of the plugin that they change.
pub record Plugin (fl : Floats) (P : Type 0) : Type 0 where
  pub dynamic_config : Config
  pub now : ℤ
  pub instant : ℤ
  pub history : Option (Cache fl.Float)
  pub period : ℕ
  pub dynamic_server : Option Manager
  pub load_balancer : Option (LoadBalancer fl.Float P)

module _ (fl : Floats) {P : Type 0} where
  -- A handler with the arguments of its path; `string` is `ctx.String`.
  unfoldable pub run :
      (Args → String → String) → Handler → Args → Plugin fl P → Plugin fl P × Shown fl.Float
  run string delay args p =
      let (m, shown) =
        cmd_delay p.dynamic_config p.now p.instant p.dynamic_server (string args "server")
          (codes (string args "time")) in
      (record p { dynamic_server = m }, messages shown)
  run string auto_shutdown args p =
      let (m, shown) =
        cmd_auto_shutdown p.dynamic_config p.dynamic_server (string args "server")
          (string args "toggle") in
      (record p { dynamic_server = m }, messages shown)
  run string help args p = (p, lines cmd_help)
  run string lb_status args p =
      let (first, reports) =
        cmd_lb_status fl p.history p.period p.load_balancer (string args "server") in
      (p, status first reports)
  run string lb_status_all args p = (p, messages (cmd_lb_status_all p.load_balancer))
  run string lb_disable args p =
      let (lb, shown) =
        cmd_lb_disable p.load_balancer (string args "server") (string args "backend") in
      (record p { load_balancer = lb }, messages shown)
  run string lb_enable args p =
      let (lb, shown) =
        cmd_lb_enable p.load_balancer (string args "server") (string args "backend") in
      (record p { load_balancer = lb }, messages shown)
  run string lb_help args p = (p, lines cmd_lb_help)
