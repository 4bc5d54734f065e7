-- ===== src/Plugin.antt =====
-- main.go: the plugin. Setup has what `init` starts, Handlers what it does with logins, connections
-- and commands, Commands the plugin's own commands, Durations the times that they read and print.
pub mod Durations
pub mod Routes
pub mod Setup
pub mod Handlers
pub mod Commands
mod Tests
