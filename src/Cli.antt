-- ===== src/Cli.antt =====
-- internal/cli: the commands.
pub mod EventsRetry
