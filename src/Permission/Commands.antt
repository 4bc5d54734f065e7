-- ===== src/Permission/Commands.antt =====
-- Who may run which command.
use rms_gate.Base.{
  ℕ, String, ◌≡◌, refl, true, false, List, ◌∷◌, ◌++◌, All, is_space, Apart, fields-word,
}
use rms_gate.Permission.{Manager, trim_slash, names_command, is_admin_command}

module _ (to_lower : String → String) (lower : List ℕ → List ℕ) where
  -- Spaces before the name of a command and arguments behind it do not matter: whether a text is an
  -- admin command depends on the first word of its lower case alone.
  is_admin_command-word :
      (m : Manager) (cmd front more rest : List ℕ) (x : ℕ)
      → lower (trim_slash cmd) ≡ front ++ (x ∷ (more ++ rest))
      → All (λ c. is_space c ≡ true) front
      → is_space x ≡ false
      → All (λ c. is_space c ≡ false) more
      → Apart rest
      → is_admin_command to_lower lower m cmd ≡ names_command to_lower m.admin_commands (x ∷ more)
  unfolding is_admin_command
  is_admin_command-word m cmd front more rest x e hf hx hm ha =
      let (ws, q) = fields-word front x more rest hf hx hm ha in
      rw (e, is_admin_command) (rw (q, is_admin_command) refl)
