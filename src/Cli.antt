-- ===== src/Cli.antt =====
-- crates/client-cli: the command line, and what is shown of an answer.
pub mod Args
pub mod Render
