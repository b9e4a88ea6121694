-- ===== src/Cli.antt =====
-- cmd/gortexa/internal/cli: the generator of projects.
pub mod Names
mod Examples
