-- ===== src/Cli/Scan.antt =====
-- cmd/complyctl/cli/scan.go: the scan command.
pub mod Formats
pub mod Selection
pub mod Freshness
pub mod Requirements
pub mod Run
