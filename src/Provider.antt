-- ===== src/Provider.antt =====
-- pkg/provider: what a provider plugin and the program exchange, how plugins are found, and how
-- requests reach them.
pub mod Messages
pub mod Protocol
pub mod Requests
pub mod Discovery
pub mod Manager
