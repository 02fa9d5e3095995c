-- ===== src/Cli.antt =====
-- cmd/complyctl/cli: the parts of the commands that decide what is fetched, generated and scanned.
pub mod Verifiers
pub mod Scan
pub mod Get
