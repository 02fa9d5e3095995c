-- ===== src/Tests.antt =====
-- Runs of the operations at concrete data, and the theorems at inputs that meet their conditions.
mod Sorting
mod Fixtures
mod States
mod Evictions
mod Complypacks
mod Syncs
mod PackSyncs
mod Configs
mod Verifiers
mod Providers
mod Generations
mod Outputs
mod Scans
mod Runs
mod Gets
