-- ===== src/Plugin/Routes/Typing.antt =====
-- What is typed, and what it does.
use rms_gate.Base.{
  String, ◌≡◌, refl, ◌∙◌, inl, inr, true, Option, none, some, List, [], ◌∷◌, Occurs, str_eq, lookup,
  Bool, codes,
}
use rms_gate.Float64.{Floats}
use rms_gate.Plugin.Commands.{
  cmd_delay, cmd_auto_shutdown, cmd_lb_status, cmd_lb_status_all, cmd_lb_disable, cmd_lb_enable,
}
use rms_gate.Plugin.Routes.{
  ArgumentType, string_argument, Handler, Args, Plugin, Shown, delay, auto_shutdown, help,
  lb_status, lb_status_all, lb_disable, lb_enable, lb_help, register_commands, cmd_help,
  cmd_lb_help, run, messages, status, lines,
}
use rms_gate.Plugin.Routes.Paths.{
  Part, Route, fits, all_paths, first_fit, separate, first_fit-separate,
}

-- The proxy's side of the command: the words that it takes for an argument of a type, the handler
-- for a text, and `ctx.String`.
pub record Parser : Type 0 where
  pub reads : ArgumentType → String → Bool
  pub dispatch : List String → Option (Handler × Args)
  pub string : Args → String → String

-- It runs the handler of the path that fits, and gives it the arguments of the path.
pub record Follows (parser : Parser) (rs : List Route) : Type 0 where
  pub finds :
      (ps : List Part) (h : Handler) (ts : List String) (args : Args)
      → Occurs (ps, h) rs
      → fits parser.reads ps ts ≡ some args
      → parser.dispatch ts ≡ some (h, args)
  pub gives : (args : Args) (n v : String) → lookup n args ≡ some v → parser.string args n ≡ v

-- The first path that fits, and the empty text for an argument that is missing.
abbrev pub first_path : (ArgumentType → String → Bool) → Parser
first_path reads = record {
  reads = reads;
  dispatch = first_fit reads (all_paths register_commands);
  string = λ args n. elim (lookup n args) [ none ↦ "" | some v ↦ v ];
}

registered : separate (all_paths register_commands) ≡ true
unfolding separate all_paths register_commands str_eq
registered = refl

-- No two paths fit the same text, so the first that fits is the one.
pub first_path-Follows :
    (reads : ArgumentType → String → Bool)
    → Follows (first_path reads) (all_paths register_commands)
first_path-Follows reads = record {
  finds = λ ps h ts args at e. first_fit-separate reads _ ps h ts args registered at e;
  gives = λ args n v e. rw (first_path, e) refl;
}

module _ (fl : Floats) {P : Type 0} where
  -- A text that is typed, split into words; `none` is one that fits no path.
  unfoldable pub typed : Parser → List String → Plugin fl P → Option (Plugin fl P × Shown fl.Float)
  unfolding run
  typed parser ts p = elim (parser.dispatch ts) [
    | none ↦ none
    | some (h, args) ↦ some (run fl parser.string h args p)
  ]

  runs :
      (parser : Parser) (ts : List String) (h : Handler) (args : Args) (p : Plugin fl P)
      → parser.dispatch ts ≡ some (h, args)
      → typed parser ts p ≡ some (run fl parser.string h args p)
  unfolding typed
  runs parser ts h args p e = rw (typed, e) refl

-- What each of the commands does to the plugin and shows, with the texts for its arguments.
pub record RunsAll (fl : Floats) {P : Type 0} (parser : Parser) (p : Plugin fl P)
    (server argument : String) : Type 0 where
  pub delays : typed fl parser ("dserver" ∷ "delay" ∷ server ∷ argument ∷ []) p ≡ (
      let r = cmd_delay p.dynamic_config p.now p.instant p.dynamic_server server (codes argument) in
      some (record p { dynamic_server = r.0 }, messages r.1))
  pub toggles : typed fl parser ("dserver" ∷ "autoshutdown" ∷ server ∷ argument ∷ []) p ≡ (
      let r = cmd_auto_shutdown p.dynamic_config p.dynamic_server server argument in
      some (record p { dynamic_server = r.0 }, messages r.1))
  pub helps : typed fl parser ("dserver" ∷ []) p ≡ (some (p, lines cmd_help))
  pub reports : typed fl parser ("lb" ∷ "status" ∷ server ∷ []) p ≡ (
      let r = cmd_lb_status fl p.history p.period p.load_balancer server in
      some (p, status r.0 r.1))
  pub reports_all :
      typed fl parser ("lb" ∷ "status" ∷ []) p
      ≡ (some (p, messages (cmd_lb_status_all p.load_balancer)))
  pub disables : typed fl parser ("lb" ∷ "disable" ∷ server ∷ argument ∷ []) p ≡ (
      let r = cmd_lb_disable p.load_balancer server argument in
      some (record p { load_balancer = r.0 }, messages r.1))
  pub enables : typed fl parser ("lb" ∷ "enable" ∷ server ∷ argument ∷ []) p ≡ (
      let r = cmd_lb_enable p.load_balancer server argument in
      some (record p { load_balancer = r.0 }, messages r.1))
  pub lb_helps : typed fl parser ("lb" ∷ []) p ≡ (some (p, lines cmd_lb_help))

-- A proxy that follows the registered trees runs the handler of what is typed, with the texts that
-- stand at its arguments, as long as it reads both as arguments of type brigodier.String; what it
-- returns for an argument that is missing does not matter.
pub typed_commands :
    (fl : Floats) {P : Type 0} (parser : Parser)
    → Follows parser (all_paths register_commands)
    → (p : Plugin fl P) (server argument : String) → parser.reads string_argument server ≡ true
    → parser.reads string_argument argument ≡ true
    → RunsAll fl parser p server argument
unfolding run all_paths register_commands fits str_eq lookup
typed_commands fl parser f p server argument reads_server reads_argument = record {
  delays =
      runs fl parser _ delay (("server", server) ∷ ("time", argument) ∷ []) p (
        f.finds _ delay ("dserver" ∷ "delay" ∷ server ∷ argument ∷ [])
          (("server", server) ∷ ("time", argument) ∷ []) (inl refl)
          (rw (reads_server, reads_argument) refl))
      ∙ rw
          (
            run,
            f.gives (("server", server) ∷ ("time", argument) ∷ []) "server" server refl,
            f.gives (("server", server) ∷ ("time", argument) ∷ []) "time" argument refl,
          )
          refl;
  toggles =
      runs fl parser _ auto_shutdown (("server", server) ∷ ("toggle", argument) ∷ []) p (
        f.finds _ auto_shutdown ("dserver" ∷ "autoshutdown" ∷ server ∷ argument ∷ [])
          (("server", server) ∷ ("toggle", argument) ∷ []) (inr (inl refl))
          (rw (reads_server, reads_argument) refl))
      ∙ rw
          (
            run,
            f.gives (("server", server) ∷ ("toggle", argument) ∷ []) "server" server refl,
            f.gives (("server", server) ∷ ("toggle", argument) ∷ []) "toggle" argument refl,
          )
          refl;
  helps =
      runs fl parser _ help ([]) p
        (f.finds _ help ("dserver" ∷ []) ([]) (inr (inr (inl refl))) refl);
  reports =
      runs fl parser _ lb_status (("server", server) ∷ []) p (
        f.finds _ lb_status ("lb" ∷ "status" ∷ server ∷ []) (("server", server) ∷ [])
          (inr (inr (inr (inl refl)))) (rw reads_server refl))
      ∙ rw (run, f.gives (("server", server) ∷ []) "server" server refl) refl;
  reports_all =
      runs fl parser _ lb_status_all ([]) p (
        f.finds _ lb_status_all ("lb" ∷ "status" ∷ []) ([]) (inr (inr (inr (inr (inl refl)))))
          refl);
  disables =
      runs fl parser _ lb_disable (("server", server) ∷ ("backend", argument) ∷ []) p (
        f.finds _ lb_disable ("lb" ∷ "disable" ∷ server ∷ argument ∷ [])
          (("server", server) ∷ ("backend", argument) ∷ []) (inr (inr (inr (inr (inr (inl refl))))))
          (rw (reads_server, reads_argument) refl))
      ∙ rw
          (
            run,
            f.gives (("server", server) ∷ ("backend", argument) ∷ []) "server" server refl,
            f.gives (("server", server) ∷ ("backend", argument) ∷ []) "backend" argument refl,
          )
          refl;
  enables =
      runs fl parser _ lb_enable (("server", server) ∷ ("backend", argument) ∷ []) p (
        f.finds _ lb_enable ("lb" ∷ "enable" ∷ server ∷ argument ∷ [])
          (("server", server) ∷ ("backend", argument) ∷ [])
          (inr (inr (inr (inr (inr (inr (inl refl))))))) (rw (reads_server, reads_argument) refl))
      ∙ rw
          (
            run,
            f.gives (("server", server) ∷ ("backend", argument) ∷ []) "server" server refl,
            f.gives (("server", server) ∷ ("backend", argument) ∷ []) "backend" argument refl,
          )
          refl;
  lb_helps = runs fl parser _ lb_help ([]) p (
      f.finds _ lb_help ("lb" ∷ []) ([]) (inr (inr (inr (inr (inr (inr (inr (inl refl)))))))) refl);
}
