-- ===== src/Cache.antt =====
-- internal/cache: the sync state, the policy sync, and the complypack cache and its sync.
pub mod State
pub mod StateFile
pub mod Reference
pub mod PathComponent
pub mod Retention
pub mod Eviction
pub mod Complypack
pub mod ComplypackSync
pub mod Sync
