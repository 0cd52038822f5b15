-- ===== src/Runner.antt =====
-- internal/service/codex/runner.go: the program's side of a session with the Codex app server.
pub mod Commands
pub mod Stats
pub mod Exchange
